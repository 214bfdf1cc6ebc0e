-- ===== src/Dfs/Hints.antt =====
-- smbprotocol/dfs.py, `ReferralEntry`: the order in which the targets are tried.
use smbprotocol.Prelude.{
  ℕ, zero, suc, ◌+◌, ◌<◌, ◌≡◌, refl, sym, ap, ap₂, ◌∙◌, subst, List, [], ◌∷◌, ◌++◌, map, Bool, true,
  false, ◌&&◌, some, ok, ◌>>=◌, ◌==◌, get_elem?, length, take, drop, arith, ok-injective, >>=-eq-ok,
  Bool-cases, inl, inr, ==_iff, ==_refl,
}
use smbprotocol.Files.Modes.{Chars}
use smbprotocol.Dfs.{
  ReferralEntry, Referral, Target, chars_eq, bool_eq, target_eq, item, target_of, target_list,
  target_hint, find_target, set_target_hint, others, iterate,
}

pub chars_eq_sound : (cs ds : Chars) → chars_eq cs ds ≡ true → cs ≡ ds
chars_eq_sound [] [] e = refl
chars_eq_sound [] (d ∷ ds) e = cc
chars_eq_sound (c ∷ cs) [] e = cc
chars_eq_sound (c ∷ cs) (d ∷ ds) e = elim (Bool-cases (c == d)) [
  | inl same ↦ ap₂ ◌∷◌ ((==_iff c d).0 same) (chars_eq_sound cs ds (rw same at e))
  | inr other ↦ absurd (differ (rw other at e))
]
  where
    differ : false ≡ true → ⊥
    differ q = cc

pub chars_eq_refl : (cs : Chars) → chars_eq cs cs ≡ true
chars_eq_refl [] = refl
chars_eq_refl (c ∷ cs) = rw (==_refl c) (chars_eq_refl cs)

bool_eq_sound : (a b : Bool) → bool_eq a b ≡ true → a ≡ b
bool_eq_sound true b e = sym e
bool_eq_sound false true e = cc
bool_eq_sound false false e = refl

and-both : (a b : Bool) → (a && b) ≡ true → (a ≡ true) × (b ≡ true)
and-both true b e = (refl, e)
and-both false b e = cc

target_eq_sound : (t u : Target) → target_eq t u ≡ true → t ≡ u
target_eq_sound t u e =
    let (path, boundary) = and-both (chars_eq t.target_path u.target_path) _ e in
    ap₂ (λ p b. record { target_path = p; set_boundary = b })
      (chars_eq_sound t.target_path u.target_path path)
      (bool_eq_sound t.set_boundary u.set_boundary boundary)

-- The loop of `__iter__` leaves out the hint and nothing else.
others_after : (hint idx : ℕ) (ts : List Target) → hint < idx → others hint idx ts ≡ ts
unfolding others
others_after hint idx [] h = refl
others_after hint idx (t ∷ ts) h =
    rw (others, differs idx hint h) (ap (◌∷◌ t) (others_after hint (suc idx) ts (omega arith)))
  where
    differs : (a b : ℕ) → b < a → (a == b) ≡ false
    differs a b h = ground arith

others_around :
    (i hint idx : ℕ) (ts : List Target)
    → hint ≡ idx + i
    → others hint idx ts ≡ take i ts ++ drop (suc i) ts
unfolding others
others_around zero hint idx [] e = refl
others_around (suc i) hint idx [] e = refl
others_around zero hint idx (t ∷ ts) e =
    rw (others, reaches idx hint (omega arith)) (others_after hint (suc idx) ts (omega arith))
  where
    reaches : (a b : ℕ) → a ≡ b → (a == b) ≡ true
    reaches a b h = ground arith
others_around (suc i) hint idx (t ∷ ts) e =
    rw (others, before idx hint (omega arith))
      (ap (◌∷◌ t) (others_around i hint (suc idx) ts (omega arith)))
  where
    before : (a b : ℕ) → a < b → (a == b) ≡ false
    before a b h = ground arith

split_at :
    (i : ℕ) (ts : List Target) {t : Target}
    → get_elem? ts i ≡ some t
    → ts ≡ take i ts ++ (t ∷ drop (suc i) ts)
split_at i [] e = cc
split_at zero (t ∷ ts) e = cc
split_at (suc i) (t ∷ ts) e = ap (◌∷◌ t) (split_at i ts e)

-- An entry whose hint is one of its referrals.
abbrev pub IsValid : ReferralEntry → Type 0
IsValid e = e.target_hint_idx < length e.referrals

pub item-some {ℓ} :
    {A : Type ℓ} (xs : List A) (i : ℕ) → i < length xs → (x : A) × (get_elem? xs i ≡ some x)
item-some [] i h = absurd (omega arith)
item-some (x ∷ xs) zero h = (x, refl)
item-some (x ∷ xs) (suc i) h = item-some xs i (omega arith)

length-target_list : (rs : List Referral) → length (map target_of rs) ≡ length rs
length-target_list [] = refl
length-target_list (r ∷ rs) = ap suc (length-target_list rs)

-- The targets in the order in which they are tried.
abbrev pub TriesFirst : ReferralEntry → Target → Type 0
TriesFirst e t =
    (before : List Target) × (after : List Target) × (iterate e ≡ ok (t ∷ before ++ after))
    × (target_list e ≡ before ++ (t ∷ after))

pub item-found {ℓ} :
    {A : Type ℓ} (xs : List A) (i : ℕ) {x : A} → get_elem? xs i ≡ some x → item xs i ≡ ok x
item-found xs i e = rw (item, e) refl

iterate-found :
    (e : ReferralEntry) {t : Target}
    → get_elem? (target_list e) e.target_hint_idx ≡ some t
    → TriesFirst e t
unfolding iterate target_hint
iterate-found e {t} found = (
  take e.target_hint_idx (target_list e),
  drop (suc e.target_hint_idx) (target_list e),
  ap (λ hint. hint >>= λ first. ok (first ∷ others e.target_hint_idx 0 (target_list e)))
        (item-found (target_list e) e.target_hint_idx found)
      ∙ ap (λ rest. ok (t ∷ rest))
          (others_around e.target_hint_idx e.target_hint_idx 0 (target_list e) (omega arith)),
  split_at e.target_hint_idx (target_list e) found,
)

-- An entry whose hint is in range tries the hinted target first, and then each of the others once, in
-- their order.
pub iterate-TriesFirst :
    (e : ReferralEntry) → IsValid e → (t : Target) × (target_hint e ≡ ok t) × TriesFirst e t
unfolding target_hint
iterate-TriesFirst e valid =
    let (t, found) =
      item-some (target_list e) e.target_hint_idx (omega (arith, length-target_list e.referrals)) in
    (t, item-found (target_list e) e.target_hint_idx found, iterate-found e found)

find_target-found :
    (value : Target) (idx : ℕ) (ts : List Target) {j : ℕ}
    → find_target value idx ts ≡ ok j
    → (i : ℕ) × (j ≡ idx + i) × (get_elem? ts i ≡ some value)
unfolding find_target
find_target-found value idx [] e = cc
find_target-found value idx (t ∷ ts) {j} e = elim (Bool-cases (target_eq t value)) [
  | inl same ↦
      (0, omega (arith, ok-injective (rw same at e)), ap some (target_eq_sound t value same))
  | inr other ↦
      let (i, at_, found) = find_target-found value (suc idx) ts (rw other at e) in
      (suc i, omega arith, found)
]

-- A target that is recorded as the hint is the hint, and is tried first.
pub set_target_hint-TriesFirst :
    (e : ReferralEntry) (value : Target) {e' : ReferralEntry}
    → set_target_hint e value ≡ ok e'
    → (target_list e' ≡ target_list e) × (target_hint e' ≡ ok value) × TriesFirst e' value
unfolding set_target_hint target_hint
set_target_hint-TriesFirst e value {e'} h =
    let (idx, found, same) = >>=-eq-ok (find_target value 0 (target_list e)) _ h in
    let (i, at_, there) = find_target-found value 0 (target_list e) found in
    let hit : get_elem? (target_list e) idx ≡ some value = rw at_ (rw (zero_add i) there) in
    subst
      (λ (x : ReferralEntry).
        (target_list x ≡ target_list e) × (target_hint x ≡ ok value) × TriesFirst x value)
      (ok-injective same)
      (
        refl,
        item-found (target_list e) idx hit,
        iterate-found (record e { target_hint_idx = idx }) hit,
      )
  where
    zero_add : (i : ℕ) → 0 + i ≡ i
    zero_add i = omega arith
