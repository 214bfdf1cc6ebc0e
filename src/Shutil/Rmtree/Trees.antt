-- ===== src/Shutil/Rmtree/Trees.antt =====
-- smbclient/shutil.py: what the laws of `rmtree` say of trees, and paths in them.
use smbprotocol.Prelude.{
  ℕ, zero, suc, ◌≡◌, ◌≢◌, ok, refl, sym, ap, ◌∙◌, subst, List, [], ◌∷◌, Bool, true, false, ◌||◌,
  if◌then◌else◌, Bool-cases, ◌⊎◌, inl, inr,
}
use smbprotocol.Dfs.{chars_eq}
use smbprotocol.Dfs.Hints.{chars_eq_sound}
use smbprotocol.Os.{Location, dirname, path_eq}
use smbprotocol.Os.Directories.Laws.{is_above, path_eq_refl, path_eq_sound}
use smbprotocol.Os.Directories.Makes.{not_above}
use smbprotocol.Shutil.Rmtree.{Child}
use smbprotocol.Shutil.Rmtree.Laws.{below, above_itself}

-- What stands at a path. A link has FILE_ATTRIBUTE_DIRECTORY, or it has not and leads to a directory, or
-- neither.
pub data Node : Type 0 where
  missing file directory file_link attributeless_link directory_link : Node

abbrev pub is_link : Node → Bool
is_link file_link = true
is_link attributeless_link = true
is_link directory_link = true
is_link _ = false

-- What the tests of an entry return, by what stands at its path.
abbrev pub Fits : Node → Child → Type 0
Fits missing e = ⊥
Fits file e = (e.is_symlink ≡ ok false) × (e.is_dir ≡ ok false)
Fits directory e = (e.is_symlink ≡ ok false) × (e.is_dir ≡ ok true)
Fits file_link e =
    (e.is_symlink ≡ ok true) × (e.has_directory_attribute ≡ ok false) × (e.is_dir ≡ ok false)
Fits attributeless_link e =
    (e.is_symlink ≡ ok true) × (e.has_directory_attribute ≡ ok false) × (e.is_dir ≡ ok true)
Fits directory_link e = (e.is_symlink ≡ ok true) × (e.has_directory_attribute ≡ ok true)

abbrev pub lists_name : List ℕ → List Child → Bool
lists_name name [] = false
lists_name name (e ∷ entries) = chars_eq name e.name || lists_name name entries

abbrev pub Distinct : List Child → Type 0
Distinct [] = Unit {0}
Distinct (e ∷ entries) = (lists_name e.name entries ≡ false) × Distinct entries

abbrev pub AllFit : (Location → Node) → Location → List Child → Type 0
AllFit at p [] = Unit {0}
AllFit at p (e ∷ entries) = (e.path ≡ e.name ∷ p) × Fits (at (e.name ∷ p)) e × AllFit at p entries

-- The tree below a path, and the path, taken out.
abbrev pub without : Location → (Location → Node) → Location → Node
without p at q = if is_above p q then missing else at q

-- Whether a path is one of the entries of a directory or below one.
abbrev pub below_any : List Child → Location → Location → Bool
below_any [] p q = false
below_any (e ∷ entries) p q = is_above (e.name ∷ p) q || below_any entries p q

-- A tree that is no deeper, without a link to a directory that lacks FILE_ATTRIBUTE_DIRECTORY.
abbrev pub Shallow : ℕ → (Location → Node) → Location → Type 0
Shallow zero at p = (at p ≢ attributeless_link) × (at p ≢ directory)
Shallow (suc depth) at p =
    (at p ≢ attributeless_link) × ((name : List ℕ) → Shallow depth at (name ∷ p))

pub above_child :
    (name : List ℕ) (p q : Location) → is_above (name ∷ p) q ≡ true → is_above p q ≡ true
above_child name p [] h = cc
above_child name p (x ∷ q) h = elim (Bool-cases (path_eq (name ∷ p) (x ∷ q))) [
  | inl same ↦
      let whole : (name ∷ p) ≡ (x ∷ q) = path_eq_sound (name ∷ p) (x ∷ q) same in
      let parent : p ≡ q = ap dirname whole in
      subst (λ r. is_above r (x ∷ q) ≡ true) (sym parent) (below q x q (above_itself q))
  | inr other ↦ below p x q (above_child name p q (rw other at h))
]

pub siblings_apart :
    (a b : List ℕ) (p : Location) → chars_eq a b ≡ false → is_above (a ∷ p) (b ∷ p) ≡ false
siblings_apart a b p h = rw h (not_above a p)

||_true : (b : Bool) → (b || true) ≡ true
||_true true = refl
||_true false = refl

pub below_any-named :
    (entries : List Child) (name : List ℕ) (p : Location)
    → lists_name name entries ≡ true
    → below_any entries p (name ∷ p) ≡ true
below_any-named [] name p h = cc
below_any-named (e ∷ entries) name p h = elim (Bool-cases (chars_eq name e.name)) [
  | inl same ↦ rw (← chars_eq_sound name e.name same, path_eq_refl (name ∷ p)) refl
  | inr other ↦
      rw (below_any-named entries name p (rw other at h))
        (||_true (is_above (e.name ∷ p) (name ∷ p)))
]

pub below_any-directory : (entries : List Child) (p : Location) → below_any entries p p ≡ false
below_any-directory [] p = refl
below_any-directory (e ∷ entries) p = rw (not_above e.name p) (below_any-directory entries p)

pub below_any-above :
    (entries : List Child) (p q : Location) → is_above p q ≡ false → below_any entries p q ≡ false
below_any-above [] p q h = refl
below_any-above (e ∷ entries) p q h = elim (Bool-cases (is_above (e.name ∷ p) q)) [
  | inl child ↦ cc (above_child e.name p q child)
  | inr other ↦ rw other (below_any-above entries p q h)
]

-- Less stands under the second than under the first.
abbrev pub Less : (Location → Node) → (Location → Node) → Type 0
Less at' at = (q : Location) → (at' q ≡ missing) ⊎ (at' q ≡ at q)

pub Less-without :
    (at at' : Location → Node) (p : Location)
    → ((q : Location) → at' q ≡ without p at q)
    → Less at' at
Less-without at at' p h q = elim (Bool-cases (is_above p q)) [
  | inl gone ↦ inl (h q ∙ rw gone refl)
  | inr kept ↦ inr (h q ∙ rw kept refl)
]

still-not :
    (at at' : Location → Node) (p : Location) (node : Node)
    → Less at' at
    → (missing ≡ node → ⊥)
    → at p ≢ node
    → at' p ≢ node
still-not at at' p node less present other e = elim (less p) [
  | inl gone ↦ present (sym gone ∙ e)
  | inr kept ↦ other (sym kept ∙ e)
]

pub Shallow-Less :
    (depth : ℕ) (at at' : Location → Node) (p : Location)
    → Less at' at
    → Shallow depth at p
    → Shallow depth at' p
Shallow-Less zero at at' p less shallow = (
  still-not at at' p attributeless_link less (λ h. cc) (shallow.0),
  still-not at at' p directory less (λ h. cc) (shallow.1),
)
Shallow-Less (suc depth) at at' p less shallow = (
  still-not at at' p attributeless_link less (λ h. cc) (shallow.0),
  λ name. Shallow-Less depth at at' (name ∷ p) less (shallow.1 name),
)

pub Shallow-no_link :
    (depth : ℕ) (at : Location → Node) (p : Location)
    → Shallow depth at p
    → at p ≢ attributeless_link
Shallow-no_link zero at p shallow = shallow.0
Shallow-no_link (suc depth) at p shallow = shallow.0

-- The entries that are left fit what is there after one with another name was removed.
pub AllFit-without :
    (at at' : Location → Node) (name : List ℕ) (p : Location) (entries : List Child)
    → lists_name name entries ≡ false
    → ((q : Location) → at' q ≡ without (name ∷ p) at q)
    → AllFit at p entries
    → AllFit at' p entries
AllFit-without at at' name p [] h gone fit = tt
AllFit-without at at' name p (e ∷ entries) h gone fit = elim (Bool-cases (chars_eq name e.name)) [
  | inl same ↦ absurd (differ (rw same at h))
  | inr other ↦ (
    fit.0,
    subst (λ k. Fits k e) (sym (gone (e.name ∷ p) ∙ rw (siblings_apart name e.name p other) refl))
        (fit.1),
    AllFit-without at at' name p entries (rw other at h) gone (fit.2),
  )
]
  where
    differ : true ≡ false → ⊥
    differ h = cc

-- Taking out one entry and then the others.
pub without_both :
    (at at₁ at₂ : Location → Node) (e : Child) (entries : List Child) (p : Location)
    → ((q : Location) → at₁ q ≡ without (e.name ∷ p) at q)
    → ((q : Location) → at₂ q ≡ (if below_any entries p q then missing else at₁ q))
    → (q : Location) → at₂ q ≡ (if below_any (e ∷ entries) p q then missing else at q)
without_both at at₁ at₂ e entries p one others q = elim (Bool-cases (is_above (e.name ∷ p) q)) [
  | inl a ↦ rw a (elim (Bool-cases (below_any entries p q)) [
    | inl b ↦ others q ∙ rw b refl
    | inr b ↦ others q ∙ rw (b, one q, a) refl
  ])
  | inr a ↦ rw a (elim (Bool-cases (below_any entries p q)) [
    | inl b ↦ others q ∙ rw b refl
    | inr b ↦ others q ∙ rw (b, one q, a) refl
  ])
]

pub Node-missing : (k : Node) → (k ≡ missing) ⊎ (k ≢ missing)
Node-missing missing = inl refl
Node-missing file = inr (λ h. absurd (cc h))
Node-missing directory = inr (λ h. absurd (cc h))
Node-missing attributeless_link = inr (λ h. absurd (cc h))
Node-missing file_link = inr (λ h. absurd (cc h))
Node-missing directory_link = inr (λ h. absurd (cc h))

pub if_same : (b : Bool) → (if b then missing else missing) ≡ missing
if_same true = refl
if_same false = refl

pub without-same :
    (at at' : Location → Node) (p : Location)
    → ((q : Location) → at' q ≡ at q)
    → (q : Location) → without p at' q ≡ without p at q
without-same at at' p same q = rw (same q) refl
