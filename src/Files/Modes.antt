-- ===== src/Files/Modes.antt =====
-- smbclient/_io.py, `_parse_share_access` and `_parse_mode`.
pub mod Laws
use smbprotocol.Prelude.{
  ℕ, suc, zero, ◌+◌, ◌≤◌, ◌<◌, ◌≡◌, ◌≢◌, refl, sym, List, [], ◌∷◌, ◌++◌, Bool, true, false, Option,
  none, some, Result, ok, err, ◌>>=◌, value_error, key_error, arith, max, ◌==◌, if◌then◌else◌,
  bit_or, Dict, lookup, remove, All, inl, inr, Option-cases, Bool-cases, ◌⊎◌, ◌↔◌, ok-injective,
}
use Prim.Native.Nat.{digits}

-- The characters of a string.
abbrev pub Chars : Type 0
Chars = List ℕ

-- The keys of `share_access_map` and `disposition_map`.
abbrev pub char_r : ℕ
char_r = 114

abbrev pub char_w : ℕ
char_w = 119

abbrev pub char_x : ℕ
char_x = 120

abbrev pub char_a : ℕ
char_a = 97

abbrev pub char_d : ℕ
char_d = 100

abbrev pub char_plus : ℕ
char_plus = 43

abbrev pub char_b : ℕ
char_b = 98

abbrev pub char_t : ℕ
char_t = 116

-- `c in text`
abbrev pub has_char : ℕ → Chars → Bool
has_char c [] = false
has_char c (d ∷ ds) = if d == c then true else has_char c ds

unfoldable pub share_access_map : Dict ℕ
share_access_map = (char_r, 0x1) ∷ (char_w, 0x2) ∷ (char_d, 0x4) ∷ []

unfoldable pub disposition_map : Dict ℕ
disposition_map =
    (char_r, 0x1)
    ∷ (char_w, 0x5)
    ∷ (char_x, 0x2)
    ∷ (char_a, 0x3)
    ∷ (char_plus, 0)
    ∷ (char_b, 0)
    ∷ (char_t, 0)
    ∷ []

-- The loop of both functions over the characters.
unfoldable pub or_values : Dict ℕ → Chars → ℕ → Result ℕ
or_values values [] total = ok total
or_values values (c ∷ raw) total = elim (lookup c values) [
  | none ↦ err value_error
  | some value ↦ or_values values raw (bit_or total value)
]

-- `_parse_share_access`; `none` is `None`, which like the empty string leaves the access at 0.
unfoldable pub parse_share_access : Option Chars → Chars → Result ℕ
unfolding or_values share_access_map
parse_share_access none mode = ok 0
parse_share_access (some []) mode = ok 0
parse_share_access (some (c ∷ raw)) mode = do
  share_access ← or_values share_access_map (c ∷ raw) 0
  ok (if has_char char_r mode then bit_or share_access 0x1 else share_access)

-- `del disposition_map[invalid_char]` for each of them.
unfoldable pub delete_chars : Chars → Dict ℕ → Result (Dict ℕ)
delete_chars [] values = ok values
delete_chars (c ∷ invalid) values = elim (lookup c values) [
  | none ↦ err key_error
  | some _ ↦ delete_chars invalid (remove c values)
]

-- `_parse_mode`
unfoldable pub parse_mode : Chars → Chars → Result ℕ
unfolding delete_chars or_values disposition_map
parse_mode raw invalid = do
  values ← delete_chars invalid disposition_map
  create_disposition ← or_values values raw 0
  if create_disposition == 0 then err value_error else ok create_disposition
