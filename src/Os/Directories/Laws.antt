-- ===== src/Os/Directories/Laws.antt =====
-- smbclient/_os.py: what `makedirs` and `removedirs` leave on a server.
use smbprotocol.Prelude.{
  ℕ, zero, suc, ◌+◌, ◌≡◌, ◌≢◌, refl, sym, ap, ◌∙◌, List, [], ◌∷◌, Bool, true, false, not, ◌&&◌,
  ◌||◌, Option, none, some, ok, err, smb_os_error, if◌then◌else◌, arith, Bool-cases, lookup, inl,
  inr,
}
use smbprotocol.Exceptions.{error_details}
use smbprotocol.Dfs.{chars_eq}
use smbprotocol.Dfs.Hints.{chars_eq_refl, chars_eq_sound}
use smbprotocol.Os.{Location, path_eq, errno_of}
use smbprotocol.Os.Directories.{Share, is_present, is_nil, after_mkdir, makedirs_loop}

pub data Entry : Type 0 where
  missing file directory : Entry

abbrev pub filled : Entry → Entry
filled missing = directory
filled file = file
filled directory = directory

abbrev pub is_directory : Entry → Bool
is_directory directory = true
is_directory missing = false
is_directory file = false

-- Whether a path is the second one or stands above it.
abbrev pub is_above : Location → Location → Bool
is_above q [] = path_eq q []
is_above q (name ∷ parent) = path_eq q (name ∷ parent) || is_above q parent

-- No file stands at the path or above it.
abbrev pub IsClear : (Location → Entry) → Location → Type 0
IsClear at [] = Unit {0}
IsClear at (name ∷ parent) = (at (name ∷ parent) ≢ file) × IsClear at parent

-- The entries after `makedirs`.
abbrev pub with_directories : Location → (Location → Entry) → Location → Entry
with_directories path at q = if is_above q path then filled (at q) else at q

pub path_eq_refl : (p : Location) → path_eq p p ≡ true
path_eq_refl [] = refl
path_eq_refl (x ∷ p) = rw (chars_eq_refl x) (path_eq_refl p)

pub path_eq_sound : (p q : Location) → path_eq p q ≡ true → p ≡ q
path_eq_sound [] [] e = refl
path_eq_sound [] (y ∷ q) e = cc
path_eq_sound (x ∷ p) [] e = cc
path_eq_sound (x ∷ p) (y ∷ q) e = elim (Bool-cases (chars_eq x y)) [
  | inl same ↦ cc (chars_eq_sound x y same, path_eq_sound p q (rw same at e))
  | inr other ↦ absurd (differ (rw other at e))
]
  where
    differ : false ≡ true → ⊥
    differ h = cc

-- What is documented of a server: creating what exists is a collision, creating below what is missing
-- finds no path, and creating in a directory adds that one directory. What exists stands in a directory.
pub record MakesDirectories (share : Share) (at : share.World → Location → Entry) : Type 0 where
  pub root : (w : share.World) → at w [] ≡ directory
  pub nested :
      (w : share.World) (name : List ℕ) (parent : Location)
      → at w (name ∷ parent) ≢ missing
      → at w parent ≡ directory
  pub collides :
      (w : share.World) (p : Location)
      → at w p ≢ missing
      → (w' : share.World) × (share.mkdir w p ≡ (w', err (smb_os_error 0xC0000035)))
        × ((q : Location) → at w' q ≡ at w q)
  pub finds_no_path :
      (w : share.World) (name : List ℕ) (parent : Location)
      → at w (name ∷ parent) ≡ missing
      → at w parent ≡ missing
      → (w' : share.World) × (share.mkdir w (name ∷ parent) ≡ (w', err (smb_os_error 0xC000003A)))
        × ((q : Location) → at w' q ≡ at w q)
  pub creates :
      (w : share.World) (name : List ℕ) (parent : Location)
      → at w (name ∷ parent) ≡ missing
      → at w parent ≡ directory
      → (w' : share.World) × (share.mkdir w (name ∷ parent) ≡ (w', ok tt))
        × ((q : Location) → at w' q ≡ (if path_eq q (name ∷ parent) then directory else at w q))

-- Addition on the first argument, which the loop computes with.
abbrev pub plus : ℕ → ℕ → ℕ
plus zero g = g
plus (suc n) g = suc (plus n g)

pub plus_assoc : (a b c : ℕ) → plus (plus a b) c ≡ plus a (plus b c)
plus_assoc zero b c = refl
plus_assoc (suc a) b c = ap suc (plus_assoc a b c)

pub plus-eq-add : (a b : ℕ) → plus a b ≡ a + b
plus-eq-add zero b = omega arith
plus-eq-add (suc a) b = omega (arith, plus-eq-add a b)

module _ (share : Share) (at : share.World → Location → Entry)
    (makes : MakesDirectories share at) where
  open share use {World, mkdir}

  pub above-directory :
      (w : World) (p q : Location) → at w p ≡ directory → is_above q p ≡ true → at w q ≡ directory
  above-directory w [] q e h = rw (path_eq_sound q [] h) e
  above-directory w (name ∷ parent) q e h = elim (Bool-cases (path_eq q (name ∷ parent))) [
    | inl same ↦ rw (path_eq_sound q (name ∷ parent) same) e
    | inr other ↦ above-directory w parent q (makes.nested w name parent (λ m. cc)) (rw other at h)
  ]

  abbrev pub Known : World → Option Location → Type 0
  Known w none = Unit {0}
  Known w (some p) = at w p ≡ directory

  pub Known-not_missing :
      (w : World) (present : Option Location) (p : Location)
      → Known w present
      → at w p ≡ missing
      → is_present present p ≡ false
  Known-not_missing w none p k m = refl
  Known-not_missing w (some r) p k m = elim (Bool-cases (path_eq r p)) [
    | inl same ↦ absurd (both (sym m ∙ rw (← path_eq_sound r p same) k))
    | inr other ↦ other
  ]
    where
      both : missing ≡ directory → ⊥
      both h = cc

  -- One round of the loop, for each answer of the server.
  pub collide_step :
      (exist_ok : Bool) (g : ℕ) (w w' : World) (p : Location) (queue : List Location)
      (present : Option Location)
      → share.mkdir w p ≡ (w', err (smb_os_error 0xC0000035))
      → (is_nil queue && not exist_ok) ≡ false
      → makedirs_loop share exist_ok (suc g) w (p ∷ queue) present
        ≡ makedirs_loop share exist_ok g w' queue (some p)
  unfolding makedirs_loop after_mkdir errno_of error_details lookup
  collide_step exist_ok g w w' p queue present m go = rw m (rw go refl)

  pub no_path_step :
      (exist_ok : Bool) (g : ℕ) (w w' : World) (name : List ℕ) (parent : Location)
      (queue : List Location) (present : Option Location)
      → share.mkdir w (name ∷ parent) ≡ (w', err (smb_os_error 0xC000003A))
      → is_present present parent ≡ false
      → makedirs_loop share exist_ok (suc g) w ((name ∷ parent) ∷ queue) present
        ≡ makedirs_loop share exist_ok g w' (parent ∷ (name ∷ parent) ∷ queue) present
  unfolding makedirs_loop after_mkdir errno_of error_details lookup
  no_path_step exist_ok g w w' name parent queue present m go = rw m (rw go refl)

  pub create_step :
      (exist_ok : Bool) (g : ℕ) (w w' : World) (p : Location) (queue : List Location)
      (present : Option Location)
      → share.mkdir w p ≡ (w', ok tt)
      → makedirs_loop share exist_ok (suc g) w (p ∷ queue) present
        ≡ makedirs_loop share exist_ok g w' queue present
  unfolding makedirs_loop after_mkdir
  create_step exist_ok g w w' p queue present m = rw m refl

  -- A directory that is known stays one where another is made.
  pub Known-kept :
      (w w' : World) (present : Option Location) (p : Location)
      → ((q : Location) → at w' q ≡ (if path_eq q p then directory else at w q))
      → Known w present
      → Known w' present
  Known-kept w w' none p h k = tt
  Known-kept w w' (some r) p h k = elim (Bool-cases (path_eq r p)) [
    | inl same ↦ h r ∙ rw same refl
    | inr other ↦ h r ∙ rw other k
  ]

  pub Known-same :
      (w w' : World) (present : Option Location)
      → ((q : Location) → at w' q ≡ at w q)
      → Known w present
      → Known w' present
  Known-same w w' none h k = tt
  Known-same w w' (some r) h k = h r ∙ k
