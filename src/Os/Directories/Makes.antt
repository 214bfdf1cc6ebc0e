-- ===== src/Os/Directories/Makes.antt =====
-- smbclient/_os.py: `makedirs` ends, and what it leaves.
use smbprotocol.Prelude.{
  ℕ, suc, ◌+◌, ◌-◌, ◌*◌, ◌≤◌, ◌≡◌, refl, sym, ap, ◌∙◌, List, [], ◌∷◌, Bool, true, false, not, ◌&&◌,
  Option, none, some, ok, err, smb_os_error, length, if◌then◌else◌, arith, Bool-cases, lookup, ◌⊎◌,
  inl, inr,
}
use smbprotocol.Os.{Location, path_eq, errno_of}
use smbprotocol.Exceptions.{error_details}
use smbprotocol.Os.Directories.{Share, is_nil, after_mkdir, makedirs_loop, makedirs}
use smbprotocol.Os.Directories.Laws.{
  Entry, missing, file, directory, filled, is_directory, is_above, IsClear, with_directories,
  path_eq_refl, path_eq_sound, MakesDirectories, plus, plus_assoc, plus-eq-add, Known,
  above-directory, Known-kept, Known-same, Known-not_missing, collide_step, no_path_step,
  create_step,
}

Entry-cases : (e : Entry) → (e ≡ missing) ⊎ (e ≡ directory) ⊎ (e ≡ file)
Entry-cases missing = inl refl
Entry-cases directory = inr (inl refl)
Entry-cases file = inr (inr refl)

path_eq-length : (p q : Location) → path_eq p q ≡ true → length p ≡ length q
path_eq-length p q e = ap (λ (l : Location). length l) (path_eq_sound p q e)

above-shorter : (q p : Location) → is_above q p ≡ true → length q ≤ length p
above-shorter q [] e = omega (arith, path_eq-length q [] e)
above-shorter q (name ∷ parent) e = elim (Bool-cases (path_eq q (name ∷ parent))) [
  | inl same ↦ omega (arith, path_eq-length q (name ∷ parent) same)
  | inr other ↦ omega (arith, above-shorter q parent (rw other at e))
]

-- A path does not stand above its parent.
pub not_above : (name : List ℕ) (parent : Location) → is_above (name ∷ parent) parent ≡ false
not_above name parent = elim (Bool-cases (is_above (name ∷ parent) parent)) [
  | inl e ↦ absurd (omega (arith, above-shorter (name ∷ parent) parent e))
  | inr e ↦ e
]

above_refl : (p : Location) → is_above p p ≡ true
above_refl [] = refl
above_refl (x ∷ p) = rw (path_eq_refl (x ∷ p)) refl

module _ (share : Share) (at : share.World → Location → Entry)
    (makes : MakesDirectories share at) where
  open share use {World, mkdir}

  -- What making a path comes to: the rounds that it takes, the world and the parent that is known.
  record Climbed (exist_ok : Bool) (w : World) (p : Location) (queue : List Location)
      (present : Option Location) : Type 0 where
    rounds : ℕ
    last : World
    known : Option Location
    few : rounds ≤ 2 * length p + 1
    goes :
        (g : ℕ)
        → makedirs_loop share exist_ok (plus rounds g) w (p ∷ queue) present
          ≡ makedirs_loop share exist_ok g last queue known
    keeps : Known share at makes last known
    leaves : (q : Location) → at last q ≡ with_directories p (at w) q

  filled_same :
      (w : World) (p q : Location) → at w p ≡ directory → with_directories p (at w) q ≡ at w q
  filled_same w p q e = elim (Bool-cases (is_above q p)) [
    | inl above ↦ rw (above, above-directory share at makes w p q e above) refl
    | inr other ↦ rw other refl
  ]

  climb_present :
      (exist_ok : Bool) (w : World) (p : Location) (queue : List Location)
      (present : Option Location)
      → at w p ≡ directory
      → (is_nil queue && not exist_ok) ≡ false
      → Climbed exist_ok w p queue present
  climb_present exist_ok w p queue present e go =
      let c = makes.collides w p (λ m. cc) in
      record {
        rounds = 1;
        last = c.0;
        known = some p;
        few = omega arith;
        goes = λ g. collide_step share at makes exist_ok g w c.0 p queue present c.1 go;
        keeps = c.2 p ∙ e;
        leaves = λ q. c.2 q ∙ sym (filled_same w p q e);
      }

  -- One directory more, where the parent was there.
  with_one :
      (w : World) (name : List ℕ) (parent q : Location)
      → at w (name ∷ parent) ≡ missing
      → at w parent ≡ directory
      → with_directories (name ∷ parent) (at w) q
        ≡ (if path_eq q (name ∷ parent) then directory else at w q)
  with_one w name parent q m e = elim (Bool-cases (path_eq q (name ∷ parent))) [
    | inl same ↦ rw same (rw (path_eq_sound q (name ∷ parent) same) (rw m refl))
    | inr other ↦ rw other (filled_same w parent q e)
  ]

  climb_new :
      (exist_ok : Bool) (w : World) (name : List ℕ) (parent : Location) (queue : List Location)
      (present : Option Location)
      → at w (name ∷ parent) ≡ missing
      → at w parent ≡ directory
      → Known share at makes w present
      → Climbed exist_ok w (name ∷ parent) queue present
  climb_new exist_ok w name parent queue present m e k =
      let c = makes.creates w name parent m e in
      record {
        rounds = 1;
        last = c.0;
        known = present;
        few = omega arith;
        goes = λ g. create_step share at makes exist_ok g w c.0 (name ∷ parent) queue present c.1;
        keeps = Known-kept share at makes w c.0 present (name ∷ parent) c.2 k;
        leaves = λ q. c.2 q ∙ sym (with_one w name parent q m e);
      }

  with_directories-same :
      (w w' : World) (p q : Location)
      → ((r : Location) → at w' r ≡ at w r)
      → with_directories p (at w') q ≡ with_directories p (at w) q
  with_directories-same w w' p q h = rw (h q) refl

  with_parent :
      (w between : World) (name : List ℕ) (parent q : Location)
      → at w (name ∷ parent) ≡ missing
      → at between q ≡ with_directories parent (at w) q
      → (if path_eq q (name ∷ parent) then directory else at between q)
        ≡ with_directories (name ∷ parent) (at w) q
  with_parent w between name parent q m h = elim (Bool-cases (path_eq q (name ∷ parent))) [
    | inl same ↦ rw same (rw (path_eq_sound q (name ∷ parent) same) (rw m refl))
    | inr other ↦ rw other h
  ]

  climb_far :
      (exist_ok : Bool) (w w' : World) (name : List ℕ) (parent : Location) (queue : List Location)
      (present : Option Location)
      → at w (name ∷ parent) ≡ missing
      → at w parent ≡ missing
      → Known share at makes w present
      → share.mkdir w (name ∷ parent) ≡ (w', err (smb_os_error 0xC000003A))
      → ((q : Location) → at w' q ≡ at w q)
      → Climbed exist_ok w' parent ((name ∷ parent) ∷ queue) present
      → Climbed exist_ok w (name ∷ parent) queue present
  unfolding climb_new
  climb_far exist_ok w w' name parent queue present m n k answer same up = record {
    rounds = suc (plus up.rounds 1);
    last = new.last;
    known = new.known;
    few = omega (arith, up.few, plus-eq-add up.rounds 1);
    goes = λ g.
        no_path_step share at makes exist_ok (plus (plus up.rounds 1) g) w w' name parent queue
          present answer (Known-not_missing share at makes w present parent k n)
        ∙ (rw (plus_assoc up.rounds 1 g) (up.goes (plus 1 g)) ∙ new.goes g);
    keeps = new.keeps;
    leaves = λ q.
        new.leaves q
        ∙ (with_one up.last name parent q not_yet now
            ∙ with_parent w up.last name parent q m
                (up.leaves q ∙ with_directories-same w w' parent q same));
  }
    where
      not_yet : at up.last (name ∷ parent) ≡ missing
      not_yet = up.leaves (name ∷ parent) ∙ rw (not_above name parent) (same (name ∷ parent) ∙ m)

      now : at up.last parent ≡ directory
      now = up.leaves parent ∙ rw (above_refl parent) (ap filled (same parent ∙ n))

      new : Climbed exist_ok up.last (name ∷ parent) queue up.known
      new = climb_new exist_ok up.last name parent queue up.known not_yet now up.keeps

  clear-not_file : (w : World) (p : Location) → IsClear (at w) p → at w p ≡ file → ⊥
  clear-not_file w [] c f = absurd (cc (makes.root w))
  clear-not_file w (name ∷ parent) c f = c.0 f

  IsClear-same :
      (w w' : World) (p : Location)
      → ((q : Location) → at w' q ≡ at w q)
      → IsClear (at w) p
      → IsClear (at w') p
  IsClear-same w w' [] h c = tt
  IsClear-same w w' (name ∷ parent) h c =
      (λ f. c.0 (sym (h (name ∷ parent)) ∙ f), IsClear-same w w' parent h c.1)

  climb :
      (exist_ok : Bool) (w : World) (p : Location) (queue : List Location)
      (present : Option Location)
      → IsClear (at w) p
      → Known share at makes w present
      → ((is_nil queue && not exist_ok) ≡ false) ⊎ (at w p ≡ missing)
      → Climbed exist_ok w p queue present
  climb exist_ok w [] queue present c k (inl go) =
      climb_present exist_ok w [] queue present (makes.root w) go
  climb exist_ok w [] queue present c k (inr m) = absurd (cc (makes.root w))
  climb exist_ok w (name ∷ parent) queue present c k go =
      let rest = λ (w' : World) (same : (q : Location) → at w' q ≡ at w q).
        climb exist_ok w' parent ((name ∷ parent) ∷ queue) present
          (IsClear-same w w' parent same c.1) (Known-same share at makes w w' present same k)
          (inl refl) in
      elim (Entry-cases (at w (name ∷ parent))) [
        | inl m ↦ elim (Entry-cases (at w parent)) [
          | inl n ↦
              let a = makes.finds_no_path w name parent m n in
              climb_far exist_ok w a.0 name parent queue present m n k a.1 a.2 (rest a.0 a.2)
          | inr (inl d) ↦ climb_new exist_ok w name parent queue present m d k
          | inr (inr f) ↦ absurd (clear-not_file w parent c.1 f)
        ]
        | inr (inl d) ↦ elim go [
          | inl on ↦ climb_present exist_ok w (name ∷ parent) queue present d on
          | inr m ↦ absurd (cc)
        ]
        | inr (inr f) ↦ absurd (c.0 f)
      ]

  collide_end :
      (g : ℕ) (w w' : World) (p : Location)
      → share.mkdir w p ≡ (w', err (smb_os_error 0xC0000035))
      → makedirs_loop share false (suc g) w (p ∷ []) none
        ≡ (w', some (err (smb_os_error 0xC0000035)))
  unfolding makedirs_loop after_mkdir errno_of error_details lookup
  collide_end g w w' p m = rw m refl

  makes_from :
      (w : World) (path : Location) (exist_ok : Bool)
      → Climbed exist_ok w path [] none
      → (w' : World) × (makedirs share w path exist_ok ≡ (w', some (ok tt)))
        × ((q : Location) → at w' q ≡ with_directories path (at w) q)
  unfolding makedirs makedirs_loop
  makes_from w path exist_ok up =
      let left = 2 * length path + 1 - up.rounds in
      let enough : plus up.rounds (suc left) ≡ 2 * length path + 2 =
        omega (arith, plus-eq-add up.rounds (suc left), up.few) in
      (up.last, rw (← enough) (up.goes (suc left)), up.leaves)

  -- A path below the root of a share, with no file on it, is made: `makedirs` ends. Unless the path is a
  -- directory already and may not be, which is the collision that is raised, it returns; what was missing
  -- of the path and above it is a directory then, and every other entry is as it was.
  pub makedirs-makes :
      (w : World) (path : Location) (exist_ok : Bool)
      → IsClear (at w) path
      → (w' : World) × (makedirs share w path exist_ok ≡ (
        w',
        some (
            if is_directory (at w path) && not exist_ok
            then err (smb_os_error 0xC0000035)
            else ok tt),
      ))
        × ((q : Location) → at w' q ≡ with_directories path (at w) q)
  unfolding makedirs
  makedirs-makes w path exist_ok c = elim (Entry-cases (at w path)) [
    | inl m ↦ rw m (makes_from w path exist_ok (climb exist_ok w path [] none c tt (inr m)))
    | inr (inl d) ↦ elim (Bool-cases exist_ok) [
      | inl may ↦ rw (d, may) (makes_from w path true (climb true w path [] none c tt (inl refl)))
      | inr must_not ↦
          let a = makes.collides w path (λ m. cc) in
          let enough : suc (2 * length path + 1) ≡ 2 * length path + 2 = omega arith in
          rw (d, must_not)
            (
              a.0,
              rw (← enough) (collide_end (2 * length path + 1) w a.0 path a.1),
              λ q. a.2 q ∙ sym (filled_same w path q d),
            )
    ]
    | inr (inr f) ↦ absurd (clear-not_file w path c f)
  ]
