-- ===== src/Files/Modes/Laws.antt =====
-- smbclient/_io.py, `_parse_mode`: which modes it takes, and what it makes of them.
use smbprotocol.Prelude.{
  ℕ, suc, zero, Option, sym, ==_iff, ◌≢◌, ◌≤◌, ◌<◌, ◌/◌, ◌≡◌, refl, [], ◌∷◌, ◌++◌, false, none,
  some, Result, ok, err, ◌>>=◌, value_error, arith, max, ◌==◌, if◌then◌else◌, bit_or, lookup, All,
  inl, inr, Option-cases, Bool-cases, ◌⊎◌, ◌↔◌, pos→not_zero, ap, ◌∙◌,
}
use Prim.Native.Nat.{digits, bit_or-bitwise}
use smbprotocol.Files.Modes.{
  Chars, char_r, char_w, char_x, char_a, char_plus, char_b, char_t, disposition_map, or_values,
  delete_chars, parse_mode,
}

digits-max :
    (n a b : ℕ)
    → a ≤ n
    → (b ≡ 0 → digits (λ d. d) max n a b ≡ a) × (digits (λ d. d) max n a b ≡ 0 → (a ≡ 0) × (b ≡ 0))
digits-max zero a b h = (λ e. omega arith, λ e. (omega arith, e))
digits-max (suc n) zero b h = (λ e. e, λ e. (refl, e))
digits-max (suc n) (suc a) b h =
    let (keeps, empties) = digits-max n (suc a / 2) (b / 2) (omega arith) in
    (
      λ e. omega (arith, keeps (omega arith)),
      λ e. absurd (omega (arith, (empties (omega arith)).0)),
    )

bit_or-digits : (a b : ℕ) → bit_or a b ≡ digits (λ d. d) max a a b
bit_or-digits a b = λ i. bit_or-bitwise a b i

bit_or-zero : (a : ℕ) → bit_or a 0 ≡ a
bit_or-zero a = rw bit_or-digits ((digits-max a a 0 (omega arith)).0 refl)

zero-bit_or : (a : ℕ) → bit_or 0 a ≡ a
zero-bit_or a = rw bit_or-digits refl

bit_or-eq_zero : (a b : ℕ) → bit_or a b ≡ 0 → (a ≡ 0) × (b ≡ 0)
bit_or-eq_zero a b e = (digits-max a a b (omega arith)).1 (rw bit_or-digits at e)

-- A character that the map has, and one that it has with no bearing on the disposition.
abbrev pub InMap : ℕ → Type 0
InMap c = (value : ℕ) × (lookup c disposition_map ≡ some value)

abbrev pub IsZero : ℕ → Type 0
IsZero c = lookup c disposition_map ≡ some 0

or_values-modifiers :
    (raw : Chars) (total : ℕ) → All IsZero raw → or_values disposition_map raw total ≡ ok total
unfolding or_values
or_values-modifiers [] total h = refl
or_values-modifiers (c ∷ raw) total (e, h) =
    rw (or_values, e, bit_or-zero) (or_values-modifiers raw total h)

or_values-one_kind :
    (before after : Chars) (kind value : ℕ)
    → All IsZero before
    → lookup kind disposition_map ≡ some value
    → All IsZero after
    → or_values disposition_map (before ++ kind ∷ after) 0 ≡ ok value
unfolding or_values
or_values-one_kind [] after kind value h e k =
    rw (or_values, e, or_values-modifiers after (bit_or 0 value) k) (ap ok (zero-bit_or value))
or_values-one_kind (c ∷ before) after kind value (m, h) e k =
    rw (or_values, m) (or_values-one_kind before after kind value h e k)

-- Every mode of one of the letters r, w, x and a, with any of +, b and t before and after it, has the
-- disposition of that letter.
pub parse_mode-one_kind :
    (before after : Chars) (kind value : ℕ)
    → All IsZero before
    → lookup kind disposition_map ≡ some value
    → 0 < value
    → All IsZero after
    → parse_mode (before ++ kind ∷ after) [] ≡ ok value
unfolding parse_mode delete_chars
parse_mode-one_kind before after kind value h e p k =
    rw (or_values-one_kind before after kind value h e k, pos→not_zero value p) refl

-- What the loop ends with.
abbrev Ending : Chars → ℕ → Result ℕ → Type 0
Ending raw total (ok v) = All InMap raw × ((v ≡ 0) ↔ ((total ≡ 0) × All IsZero raw))
Ending raw total (err e) = (e ≡ value_error) × (All InMap raw → ⊥)

or_values-Ending :
    (raw : Chars) (total : ℕ) → Ending raw total (or_values disposition_map raw total)
unfolding or_values
or_values-Ending [] total = (tt, (λ e. (e, tt), λ p. p.0))
or_values-Ending (c ∷ raw) total = elim (Option-cases (lookup c disposition_map)) [
  | inl missing ↦ rw (Ending, or_values, missing) (refl, λ h. clash missing h.0.1)
  | inr (value, e) ↦
      rw (or_values, e)
        (extend value e (or_values disposition_map raw (bit_or total value))
          (or_values-Ending raw (bit_or total value)))
]
  where
    clash : {v : ℕ} → lookup c disposition_map ≡ none → lookup c disposition_map ≡ some v → ⊥
    clash m s = cc

    extend :
        (value : ℕ)
        → lookup c disposition_map ≡ some value
        → (r : Result ℕ) → Ending raw (bit_or total value) r
        → Ending (c ∷ raw) total r
    extend value e (err _) (same, refuses) = (same, λ h. refuses h.1)
    extend value e (ok v) (all, ends) =
        (((value, e), all), (λ z. forward (ends.0 z), λ p. ends.1 (backward p)))
      where
        forward : (bit_or total value ≡ 0) × All IsZero raw → (total ≡ 0) × All IsZero (c ∷ raw)
        forward (z, h) = let (tz, vz) = bit_or-eq_zero total value z in (tz, (e ∙ ap some vz, h))

        backward : (total ≡ 0) × All IsZero (c ∷ raw) → (bit_or total value ≡ 0) × All IsZero raw
        backward (tz, (m, h)) = (rw (tz, value_zero m) (bit_or-zero 0), h)
          where
            value_zero : lookup c disposition_map ≡ some 0 → value ≡ 0
            value_zero m = cc

parse_mode-refuses_map :
    (raw : Chars) → (parse_mode raw [] ≡ err value_error) ↔ ((All InMap raw → ⊥) ⊎ All IsZero raw)
unfolding parse_mode delete_chars
parse_mode-refuses_map raw = go (or_values disposition_map raw 0) (or_values-Ending raw 0)
  where
    go :
        (r : Result ℕ)
        → Ending raw 0 r
        → ((r >>= λ v. if v == 0 then err value_error else ok v) ≡ err value_error)
          ↔ ((All InMap raw → ⊥) ⊎ All IsZero raw)
    go (err e) (same, refuses) = (λ _. inl refuses, λ _. ap err same)
    go (ok v) (all, ends) = elim (Bool-cases (v == 0)) [
      | inl z ↦ rw z (λ _. inr (ends.0 (ground arith)).1, λ _. refl)
      | inr n ↦ rw n (λ e. cc, λ h. absurd (nonzero n h))
    ]
      where
        nonzero : (v == 0) ≡ false → ((All InMap raw → ⊥) ⊎ All IsZero raw) → ⊥
        nonzero n (inl refuses) = refuses all
        nonzero n (inr modifiers) = ground (arith, ends.1 (refl, modifiers))

-- One of the characters r, w, x and a, one of +, b and t, and either.
abbrev pub IsKind : ℕ → Type 0
IsKind c = (c ≡ 114) ⊎ (c ≡ 119) ⊎ (c ≡ 120) ⊎ (c ≡ 97)

abbrev pub IsModifier : ℕ → Type 0
IsModifier c = (c ≡ 43) ⊎ (c ≡ 98) ⊎ (c ≡ 116)

abbrev pub IsModeChar : ℕ → Type 0
IsModeChar c = IsKind c ⊎ IsModifier c

-- What the map gives of a character.
abbrev Given : ℕ → Option ℕ → Type 0
Given c none = IsModeChar c → ⊥
Given c (some zero) = IsModifier c
Given c (some (suc value)) = IsKind c × (IsModifier c → ⊥)

Given-if :
    (key c : ℕ) (found rest : Option ℕ)
    → (key ≡ c → Given c found)
    → (key ≢ c → Given c rest)
    → Given c (if key == c then found else rest)
Given-if key c found rest same other = elim (Bool-cases (key == c)) [
  | inl e ↦ rw e (same ((==_iff key c).0 e))
  | inr e ↦ rw e (other (λ h. absurd (cc (e, (==_iff key c).1 h))))
]

disposition_map-Given : (c : ℕ) → Given c (lookup c disposition_map)
unfolding disposition_map lookup
disposition_map-Given c =
    Given-if char_r c (some 1) _ (λ e. (inl (sym e), λ m. omega (arith, e, m)))
      λ n0.
        Given-if char_w c (some 5) _ (λ e. (inr (inl (sym e)), λ m. omega (arith, e, m)))
          λ n1.
            Given-if char_x c (some 2) _ (λ e. (inr (inr (inl (sym e))), λ m. omega (arith, e, m)))
              λ n2.
                Given-if char_a c (some 3) _
                  (λ e. (inr (inr (inr (sym e))), λ m. omega (arith, e, m)))
                  λ n3.
                    Given-if char_plus c (some 0) _ (λ e. inl (sym e))
                      λ n4.
                        Given-if char_b c (some 0) _ (λ e. inr (inl (sym e)))
                          λ n5.
                            Given-if char_t c (some 0) _ (λ e. inr (inr (sym e)))
                              λ n6. λ m. omega (arith, n0, n1, n2, n3, n4, n5, n6, m)

InMap-char : (c : ℕ) → IsModeChar c ↔ InMap c
InMap-char c = go (lookup c disposition_map) refl (disposition_map-Given c)
  where
    go : (o : Option ℕ) → lookup c disposition_map ≡ o → Given c o → IsModeChar c ↔ InMap c
    go none e g = (λ h. absurd (g h), λ h. absurd (cc (e, h.1)))
    go (some zero) e g = (λ _. (0, e), λ _. inr g)
    go (some (suc v)) e g = (λ _. (suc v, e), λ _. inl (g.0))

IsZero-char : (c : ℕ) → IsModifier c ↔ IsZero c
IsZero-char c = go (lookup c disposition_map) refl (disposition_map-Given c)
  where
    go : (o : Option ℕ) → lookup c disposition_map ≡ o → Given c o → IsModifier c ↔ IsZero c
    go none e g = (λ h. absurd (g (inr h)), λ h. absurd (cc (e, h)))
    go (some zero) e g = (λ _. e, λ _. g)
    go (some (suc v)) e g = (λ h. absurd (g.1 h), λ h. absurd (differ (sym h ∙ e)))
      where
        differ : {v : ℕ} → some 0 ≡ some (suc v) → ⊥
        differ h = cc

All-each : {P Q : ℕ → Type 0} (raw : Chars) → ((c : ℕ) → P c → Q c) → All P raw → All Q raw
All-each [] f h = tt
All-each (c ∷ raw) f (h, hs) = (f c h, All-each raw f hs)

-- With no character invalid for the class of the file, a mode is refused, with ValueError, exactly if one
-- of its characters is none of r, w, x, a, +, b and t, or all of them are +, b or t.
pub parse_mode-refuses :
    (raw : Chars)
    → (parse_mode raw [] ≡ err value_error) ↔ ((All IsModeChar raw → ⊥) ⊎ All IsModifier raw)
parse_mode-refuses raw =
    (λ e. to ((parse_mode-refuses_map raw).0 e), λ h. (parse_mode-refuses_map raw).1 (from h))
  where
    to : ((All InMap raw → ⊥) ⊎ All IsZero raw) → ((All IsModeChar raw → ⊥) ⊎ All IsModifier raw)
    to (inl refused) = inl (λ h. refused (All-each raw (λ c. (InMap-char c).0) h))
    to (inr modifiers) = inr (All-each raw (λ c. (IsZero-char c).1) modifiers)

    from : ((All IsModeChar raw → ⊥) ⊎ All IsModifier raw) → ((All InMap raw → ⊥) ⊎ All IsZero raw)
    from (inl refused) = inl (λ h. refused (All-each raw (λ c. (InMap-char c).1) h))
    from (inr modifiers) = inr (All-each raw (λ c. (IsZero-char c).0) modifiers)
