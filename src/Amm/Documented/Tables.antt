-- ===== src/Amm/Documented/Tables.antt =====
-- The account lists in the doc comments of `AmmInstruction` in
-- programs/pump-raydium/src/amm_instruction.rs, and how two such lists differ.
use pumpfun_solana_smart_con.Base.{ℕ, ◌+◌, Bool, true, false, if◌then◌else◌, List, [], ◌∷◌}
use pumpfun_solana_smart_con.Amm.Documented.{Role, readonly, writable, signer, writable_signer}

-- `Initialize2`.
abbrev pub documented_initialize2 : List Role
documented_initialize2 =
    readonly ∷ readonly ∷ readonly ∷ readonly ∷ writable ∷ readonly ∷ writable ∷ writable ∷ readonly
    ∷ readonly ∷ writable ∷ writable ∷ writable ∷ readonly ∷ readonly ∷ readonly ∷ writable
    ∷ writable_signer ∷ readonly ∷ readonly ∷ writable ∷ []

-- `Deposit`.
abbrev pub documented_deposit : List Role
documented_deposit =
    readonly ∷ writable ∷ readonly ∷ readonly ∷ writable ∷ writable ∷ writable ∷ writable ∷ readonly
    ∷ writable ∷ writable ∷ writable ∷ signer ∷ readonly ∷ []

-- `Withdraw`.
abbrev pub documented_withdraw : List Role
documented_withdraw =
    readonly ∷ writable ∷ readonly ∷ writable ∷ writable ∷ writable ∷ writable ∷ writable ∷ readonly
    ∷ writable ∷ writable ∷ writable ∷ readonly ∷ writable ∷ writable ∷ writable ∷ signer ∷ writable
    ∷ writable ∷ writable ∷ []

-- `SwapBaseIn` and `SwapBaseOut`, without the optional target orders account.
abbrev pub documented_swap : List Role
documented_swap =
    readonly ∷ writable ∷ readonly ∷ writable ∷ writable ∷ writable ∷ readonly ∷ writable ∷ writable
    ∷ writable ∷ writable ∷ writable ∷ writable ∷ readonly ∷ writable ∷ writable ∷ signer ∷ []

abbrev same_role : Role → Role → Bool
same_role readonly readonly = true
same_role writable writable = true
same_role signer signer = true
same_role writable_signer writable_signer = true
same_role _ _ = false

-- The positions, from `n` on, at which two lists differ.
abbrev pub differences : ℕ → List Role → List Role → List ℕ
differences n [] ys = []
differences n (x ∷ xs) [] = []
differences n (x ∷ xs) (y ∷ ys) =
    let rest = differences (n + 1) xs ys in if same_role x y then rest else n ∷ rest
