-- ===== src/Shutil/Runs.antt =====
-- smbclient/shutil.py: removing a tree on a server that is written out.
use smbprotocol.Prelude.{
  ℕ, ◌≡◌, ◌≢◌, refl, ◌∙◌, subst, List, [], ◌∷◌, Bool, true, false, ◌||◌, none, some, ok,
  if◌then◌else◌, Bool-cases, inl, inr,
}
use smbprotocol.Files.Modes.{Chars}
use smbprotocol.Dfs.{chars_eq}
use smbprotocol.Dfs.Hints.{chars_eq_refl, chars_eq_sound}
use smbprotocol.Os.{Location}
use smbprotocol.Os.Directories.Laws.{is_above}
use smbprotocol.Shutil.Rmtree.{Child, Removals, raises, rmtree}
use smbprotocol.Shutil.Rmtree.Trees.{
  Node, missing, file, directory, file_link, attributeless_link, directory_link, is_link,
  lists_name, Distinct, AllFit, without,
}
use smbprotocol.Shutil.Rmtree.Removes.{RemovesTrees, rmtree-removes}

-- The names that occur: b, l, s and d.
abbrev test_names : List Chars
test_names = (98 ∷ []) ∷ (108 ∷ []) ∷ (115 ∷ []) ∷ (100 ∷ []) ∷ []

abbrev is_one_of : Chars → List Chars → Bool
is_one_of name [] = false
is_one_of name (n ∷ names) = chars_eq name n || is_one_of name names

-- A share where only those names occur.
record TestShare : Type 0 where
  kind : Location → Node
  known :
      (name : List ℕ) (p : Location) → kind (name ∷ p) ≢ missing → is_one_of name test_names ≡ true

-- An entry, by what stands at its path.
abbrev entry : Chars → Location → Bool → Bool → Child
entry n p link dir = record {
  name = n;
  path = n ∷ p;
  is_symlink = ok link;
  is_dir = ok dir;
  has_directory_attribute = ok dir;
}

abbrev attributeless : Chars → Location → Child
attributeless n p = record (entry n p true true) { has_directory_attribute = ok false }

abbrev with_child : Chars → Location → Node → List Child → List Child
with_child n p missing rest = rest
with_child n p file rest = entry n p false false ∷ rest
with_child n p directory rest = entry n p false true ∷ rest
with_child n p file_link rest = entry n p true false ∷ rest
with_child n p attributeless_link rest = attributeless n p ∷ rest
with_child n p directory_link rest = entry n p true true ∷ rest

abbrev listed : (Location → Node) → Location → List Chars → List Child
listed at p [] = []
listed at p (n ∷ names) = with_child n p (at (n ∷ p)) (listed at p names)

listed-AllFit :
    (at : Location → Node) (p : Location) (names : List Chars) → AllFit at p (listed at p names)
listed-AllFit at p [] = tt
listed-AllFit at p (n ∷ names) = of_kind (at (n ∷ p)) refl (listed-AllFit at p names)
  where
    of_kind :
        (k : Node)
        → at (n ∷ p) ≡ k
        → AllFit at p (listed at p names)
        → AllFit at p (with_child n p k (listed at p names))
    of_kind missing e rest = rest
    of_kind file e rest = (refl, rw e (refl, refl), rest)
    of_kind directory e rest = (refl, rw e (refl, refl), rest)
    of_kind file_link e rest = (refl, rw e (refl, refl, refl), rest)
    of_kind attributeless_link e rest = (refl, rw e (refl, refl, refl), rest)
    of_kind directory_link e rest = (refl, rw e (refl, refl), rest)

lists_name-same :
    (n : Chars) (p : Location) (k : Node) (rest : List Child)
    → k ≢ missing
    → lists_name n (with_child n p k rest) ≡ true
lists_name-same n p missing rest there = absurd (there refl)
lists_name-same n p file rest there = rw (chars_eq_refl n) refl
lists_name-same n p directory rest there = rw (chars_eq_refl n) refl
lists_name-same n p file_link rest there = rw (chars_eq_refl n) refl
lists_name-same n p attributeless_link rest there = rw (chars_eq_refl n) refl
lists_name-same n p directory_link rest there = rw (chars_eq_refl n) refl

lists_name-other :
    (name n : Chars) (p : Location) (k : Node) (rest : List Child)
    → chars_eq name n ≡ false
    → lists_name name (with_child n p k rest) ≡ lists_name name rest
lists_name-other name n p missing rest other = refl
lists_name-other name n p file rest other = rw other refl
lists_name-other name n p directory rest other = rw other refl
lists_name-other name n p file_link rest other = rw other refl
lists_name-other name n p attributeless_link rest other = rw other refl
lists_name-other name n p directory_link rest other = rw other refl

-- A name that is there stands among the entries.
listed_complete :
    (at : Location → Node) (p : Location) (names : List Chars) (name : List ℕ)
    → at (name ∷ p) ≢ missing
    → is_one_of name names ≡ true
    → lists_name name (listed at p names) ≡ true
listed_complete at p [] name there h = absurd (cc h)
listed_complete at p (n ∷ names) name there h = elim (Bool-cases (chars_eq name n)) [
  | inl same ↦
      subst (λ m. lists_name name (with_child m p (at (m ∷ p)) (listed at p names)) ≡ true)
        (chars_eq_sound name n same)
        (lists_name-same name p (at (name ∷ p)) (listed at p names) there)
  | inr other ↦
      lists_name-other name n p (at (n ∷ p)) (listed at p names) other
      ∙ listed_complete at p names name there (rw other at h)
]

lists_name-listed :
    (at : Location → Node) (p : Location) (names : List Chars) (name : List ℕ)
    → is_one_of name names ≡ false
    → lists_name name (listed at p names) ≡ false
lists_name-listed at p [] name h = refl
lists_name-listed at p (n ∷ names) name h = elim (Bool-cases (chars_eq name n)) [
  | inl same ↦ absurd (cc (h, same))
  | inr other ↦
      lists_name-other name n p (at (n ∷ p)) (listed at p names) other
      ∙ lists_name-listed at p names name (rw other at h)
]

abbrev AllDiffer : List Chars → Type 0
AllDiffer [] = Unit {0}
AllDiffer (n ∷ names) = (is_one_of n names ≡ false) × AllDiffer names

listed-Distinct :
    (at : Location → Node) (p : Location) (names : List Chars)
    → AllDiffer names
    → Distinct (listed at p names)
listed-Distinct at p [] h = tt
listed-Distinct at p (n ∷ names) h =
    of_kind (at (n ∷ p)) (lists_name-listed at p names n (h.0)) (listed-Distinct at p names (h.1))
  where
    of_kind :
        (k : Node)
        → lists_name n (listed at p names) ≡ false
        → Distinct (listed at p names)
        → Distinct (with_child n p k (listed at p names))
    of_kind missing e rest = rest
    of_kind file e rest = (e, rest)
    of_kind directory e rest = (e, rest)
    of_kind file_link e rest = (e, rest)
    of_kind attributeless_link e rest = (e, rest)
    of_kind directory_link e rest = (e, rest)

less_known :
    (w : TestShare) (p : Location) (name : List ℕ) (q : Location)
    → without p w.kind (name ∷ q) ≢ missing
    → is_one_of name test_names ≡ true
less_known w p name q h = elim (Bool-cases (is_above p (name ∷ q))) [
  | inl gone ↦ absurd (h (rw gone refl))
  | inr kept ↦ w.known name q (λ m. h (rw kept m))
]

abbrev taken_out : Location → TestShare → TestShare
taken_out p w = record { kind = without p w.kind; known = less_known w p }

abbrev test_server : Removals
test_server = record {
  World = TestShare;
  islink = λ w p. (w, ok (is_link (w.kind p)));
  scandir = λ w p. (w, listed w.kind p test_names, none);
  rmdir = λ w p. (taken_out p w, ok tt);
  remove = λ w p. (taken_out p w, ok tt);
}

test_server-RemovesTrees : RemovesTrees test_server (λ w. w.kind)
test_server-RemovesTrees = record {
  tells_link = λ w p. (w, refl, λ q. refl);
  lists = λ w p d. (
    w,
    listed w.kind p test_names,
    refl,
    (λ q. refl),
    listed-Distinct w.kind p test_names (refl, (refl, (refl, (refl, tt)))),
    listed-AllFit w.kind p test_names,
    λ name there. listed_complete w.kind p test_names name there (w.known name p there),
  );
  removes = λ w p k. (taken_out p w, refl, λ q. refl);
  removes_directory = λ w name parent k. (taken_out (name ∷ parent) w, refl, λ q. refl);
}

abbrev char_d : Chars
char_d = 100 ∷ []

-- A directory d with a link l to a directory and a directory s, which holds a file b.
abbrev test_kind : Location → Node
test_kind [] = directory
test_kind (n ∷ []) = if chars_eq n (100 ∷ []) then directory else missing
test_kind (m ∷ n ∷ []) =
    if chars_eq n (100 ∷ [])
    then (if chars_eq m (108 ∷ [])
        then directory_link
        else if chars_eq m (115 ∷ [])
        then directory
        else missing)
    else missing
test_kind (k ∷ m ∷ n ∷ []) =
    if chars_eq n (100 ∷ [])
    then (if chars_eq m (115 ∷ [])
        then (if chars_eq k (98 ∷ []) then file else missing)
        else missing)
    else missing
test_kind (j ∷ k ∷ m ∷ n ∷ p) = missing

abbrev one_of_four : (a b c d : Bool) → Bool
one_of_four a b c d = a || (b || (c || (d || false)))

known_first :
    (a b c d : Bool) → (if d then directory else missing) ≢ missing → one_of_four a b c d ≡ true
known_first true b c d h = refl
known_first false true c d h = refl
known_first false false true d h = refl
known_first false false false true h = refl
known_first false false false false h = absurd (h refl)

known_second :
    (x a b c d : Bool)
    → (if x then (if b then directory_link else if c then directory else missing) else missing)
      ≢ missing
    → one_of_four a b c d ≡ true
known_second true true b c d h = refl
known_second true false true c d h = refl
known_second true false false true d h = refl
known_second true false false false d h = absurd (h refl)
known_second false a b c d h = absurd (h refl)

known_third :
    (x y a b c d : Bool)
    → (if x then (if y then (if a then file else missing) else missing) else missing) ≢ missing
    → one_of_four a b c d ≡ true
known_third true true true b c d h = refl
known_third true true false b c d h = absurd (h refl)
known_third true false a b c d h = absurd (h refl)
known_third false y a b c d h = absurd (h refl)

no_third :
    (y a : Bool)
    → ((if y then (if a then file else missing) else missing) ≢ attributeless_link)
      × ((if y then (if a then file else missing) else missing) ≢ directory)
no_third true true = (λ h. cc h, λ h. cc h)
no_third true false = (λ h. cc h, λ h. cc h)
no_third false a = (λ h. cc h, λ h. cc h)

no_second_link :
    (y a : Bool)
    → (if y then directory_link else if a then directory else missing) ≢ attributeless_link
no_second_link true a h = cc h
no_second_link false true h = cc h
no_second_link false false h = cc h

test_known :
    (name : List ℕ) (p : Location)
    → test_kind (name ∷ p) ≢ missing
    → is_one_of name test_names ≡ true
test_known name [] h =
    known_first (chars_eq name (98 ∷ [])) (chars_eq name (108 ∷ [])) (chars_eq name (115 ∷ []))
      (chars_eq name (100 ∷ [])) h
test_known name (n ∷ []) h =
    known_second (chars_eq n (100 ∷ [])) (chars_eq name (98 ∷ [])) (chars_eq name (108 ∷ []))
      (chars_eq name (115 ∷ [])) (chars_eq name (100 ∷ [])) h
test_known name (m ∷ n ∷ []) h =
    known_third (chars_eq n (100 ∷ [])) (chars_eq m (115 ∷ [])) (chars_eq name (98 ∷ []))
      (chars_eq name (108 ∷ [])) (chars_eq name (115 ∷ [])) (chars_eq name (100 ∷ [])) h
test_known name (k ∷ m ∷ n ∷ p) h = absurd (h refl)

abbrev test_share : TestShare
test_share = record { kind = test_kind; known = test_known }

rmtree-removes_example :
    (w : TestShare) × (rmtree test_server raises 2 test_share [] (char_d ∷ [])
      ≡ (w, [], some (ok tt)))
    × ((q : Location) → w.kind q ≡ without (char_d ∷ []) test_kind q)
rmtree-removes_example =
    rmtree-removes test_server raises (λ w. w.kind) test_server-RemovesTrees 2 test_share [] char_d
      [] refl
      (
        (λ h. cc h),
        λ name. (
          no_second_link (chars_eq name (108 ∷ [])) (chars_eq name (115 ∷ [])),
          λ child. no_third (chars_eq name (115 ∷ [])) (chars_eq child (98 ∷ [])),
        ),
      )
