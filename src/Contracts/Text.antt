-- ===== src/Contracts/Text.antt =====
-- internal/contracts/contracts.go: `ContractVersion`, `oneOf` and `nonemptyStrings`.
use clausa_lens.Prelude.{String, Bool, List, not, all, any, is_blank, ◌==◌, string_eq}

abbrev pub contract_version : String
contract_version = "1.0"

abbrev pub one_of : String → List String → Bool
one_of v candidates = any (λ c. v == c) candidates

unfoldable pub nonempty_strings : List String → Bool
nonempty_strings values = all (λ v. not (is_blank v)) values
