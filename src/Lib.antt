-- ===== src/Lib.antt =====
-- Verification library of the on-chain program pump-raydium, a launchpad of tokens on Solana:
-- anybody can open a bonding curve for a new token, trade against it, and, when it is complete,
-- have its liquidity moved to Raydium. The sources are under programs/pump-raydium/src.
--
-- The program's parts and the files that model them:
-- * state/bondingcurve.rs, the account BondingCurve with its quotes and updates: Curve (the account
--   and the results), Curve/Quote (get_sol_for_sell_tokens, get_tokens_for_buy_sol), Curve/Update
--   (apply_buy, apply_sell). A method on `&mut self` is a function that gives back its result with
--   the account, also where it stops at a `?` halfway, because the code does not undo its
--   assignments. Curve/Trades has sequences of successful updates, Curve/RoundTrip and
--   Curve/SellBack a buy that is sold back, and Curve/Market an abstract market without the
--   arithmetic of the prices.
-- * state/config.rs, the account Config and AmountConfig::validate: Config. The f64 percentages are
--   kept as bits, since no live code computes with them.
-- * errors.rs, constants.rs, events.rs and utils.rs: Errors, Constants, Svm (the events) and Utils,
--   with convert_to_float and convert_from_float. Utils/Decimals is about the two together.
-- * instructions/admin/configure.rs, curve/create_bonding_curve.rs, curve/swap.rs and
--   migration/migrate.rs, the handlers: Instructions/Configure, Create, Swap and Migrate. The method
--   `swap` of state/bondingcurve.rs stands with the swap instruction. Instructions/Configure/Frame and
--   Payment are about what the handler of `configure` costs and leaves alone, Again about when a
--   later one goes through.
-- * the account attributes of the four contexts (signers, with the new mint of a launch, seeds, addresses, associated
--   token accounts): Accounts, Accounts/Migration.
-- * lib.rs, the entry points, with the constraints of their contexts that are no keys: Program,
--   whose `execute` runs one request, and Program/Entry, which takes a successful one apart. A
--   History has transactions of the program, between which others may change the machine, but not
--   the bonding curve accounts. What else they may not do is a parameter: nothing in Runs; they keep
--   the rules of the token program in Program/Supply, leave the vault's tokens alone in
--   Program/Tokens, emit none of the program's events in Program/Log, and write none of its accounts
--   in Program/Governed. Program/Invariant has the induction on histories, Program/Curves and
--   Program/Frozen are about the bonding curves, Program/Vault about the lamports of the vault,
--   Program/Launches and Program/Swaps about when a launch or a swap goes through, Program/Settings about the use of a
--   configuration by later launches, Program/Costs about what a `configure` costs with the accounts
--   that it opens, Program/Log and Program/Truth about the events.
-- * amm_instruction.rs, the instructions of the Raydium pool program, their bytes and the functions
--   that build them: Amm, Amm/Bytes, Amm/Codec, Amm/Liquidity, Amm/Swaps. Amm/Documented compares
--   the built instructions with the doc comments of the enumeration.
--
-- Base passes the shared names on and has the Boolean tests and the list functions on machine
-- numbers; Rust has the checked arithmetic, the conversions and the results of the language.
-- Rust/Float has the doubles of IEEE 754 as exact multiples of 2 ^ -1074, with division,
-- multiplication and the conversion from u64, each rounded to the nearest, ties to even, and the
-- conversion to u64, which truncates and saturates.
--
-- Numbers are naturals. u64 and u128 arithmetic is written out: checked operations answer none
-- beyond 2 ^ 64 or 2 ^ 128, and Rust/Signed has the casts between u64 and i64 that `configure` uses.
-- A theorem that needs its inputs to be machine words says so (IsU8, IsU64, IsU64Curve). Nothing in
-- the code loops without a bound, and every definition is total. Only the model of rounding has
-- fuel: it looks for the spacing of the doubles around a number by doubling it up to 5000 times
-- (grain_fuel). The spacing is found for every number below 2 ^ 5000 times the largest mantissa
-- (grain-Grains of Rust/Float/Rounding), which the exact products and quotients of the conversions
-- do not reach.
--
-- A handler (Svm.Run) is a function of the machine, Svm.World, that answers with a new machine or
-- with a fault: the runtime undoes a transaction that fails, so a fault carries no machine. The
-- machine has what the code or its properties look at: lamports, owners, data, supplies, mint
-- authorities, token amounts and the events.
--
-- What is not in the repository is a parameter. Svm.Runtime has the calls of the system, token,
-- associated token and metadata programs, the rent, realloc, and the serialisation that Anchor
-- derives; Svm/Laws (and CodecLaws beside `configure`) state what is documented of them, and each
-- theorem names the laws it uses. Accounts.Addresses has the derivation of addresses and the ids of
-- the called programs, Program.Loader what Anchor generates to read and create accounts; their laws
-- stand in Program/Laws: derived addresses do not collide and have no signature (IsSigned: what the
-- machine accepts as a signer does), the generated code decodes an account as it was encoded, and
-- opens the wrapped SOL account of the vault at the payer's cost (WsolLaws).
-- Amm/Sdk has the account metas and program ids of the Solana crate. `f64::powf` is a parameter of
-- the conversions, since Rust leaves its precision open, and no theorem relies on any. The files of Tests apply the theorems to a small runtime
-- (Tests/Machine), with addresses and generated code (Tests/Addresses) and a serialisation
-- (Tests/Codec) of their own.
--
-- Not modelled: the hash behind a derived address, and the checks of owner and type of an account,
-- and whether an account is passed as writable, which Anchor generates; the constants that no live code reads; the message logs; the client
-- under cli and lib.
pub mod Base
pub mod Rust
pub mod Errors
pub mod Curve
pub mod Config
pub mod Svm
pub mod Constants
pub mod Utils
pub mod Instructions
pub mod Accounts
pub mod Program
pub mod Amm
pub mod Tests
