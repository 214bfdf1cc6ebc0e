-- ===== src/Shutil/Rmtree/Removes.antt =====
-- smbclient/shutil.py: `rmtree` removes the tree that it is called on.
use smbprotocol.Prelude.{
  ℕ, zero, suc, ◌≡◌, ◌≢◌, refl, ap, ◌∙◌, List, [], ◌∷◌, true, false, none, some, ok, if◌then◌else◌,
  Bool-cases, ◌⊎◌, inl, inr,
}
use smbprotocol.Os.{Location}
use smbprotocol.Os.Directories.Laws.{is_above}
use smbprotocol.Shutil.Rmtree
use smbprotocol.Shutil.Rmtree.{
  Child, Removals, Handler, remove_entry, remove_entries, remove_scanned, rmtree,
}
use smbprotocol.Shutil.Rmtree.Trees.{
  Node, missing, file, directory, file_link, directory_link, is_link, Fits, attributeless_link,
  Shallow-no_link, lists_name, Distinct, AllFit, without, below_any, Shallow, below_any-named,
  below_any-directory, below_any-above, Less-without, Shallow-Less, AllFit-without, without_both,
  Node-missing, if_same, without-same,
}

-- What is documented of a server, where nothing refuses to be removed or asked: a directory lists what stands in
-- it, each name once; removing a file, a link or an empty directory takes it out and nothing else.
pub record RemovesTrees (server : Removals) (at : server.World → Location → Node) : Type 0 where
  pub tells_link :
      (w : server.World) (p : Location)
      → (w' : server.World) × (server.islink w p ≡ (w', ok (is_link (at w p))))
        × ((q : Location) → at w' q ≡ at w q)
  pub lists :
      (w : server.World) (p : Location)
      → at w p ≡ directory
      → (w' : server.World) × (entries : List Child) × (server.scandir w p ≡ (w', entries, none))
        × ((q : Location) → at w' q ≡ at w q)
        × Distinct entries
        × AllFit (at w') p entries
        × ((name : List ℕ) → at w' (name ∷ p) ≢ missing → lists_name name entries ≡ true)
  pub removes :
      (w : server.World) (p : Location)
      → (at w p ≡ file) ⊎ (at w p ≡ file_link)
      → (w' : server.World) × (server.remove w p ≡ (w', ok tt))
        × ((q : Location) → at w' q ≡ without p (at w) q)
  pub removes_directory :
      (w : server.World) (name : List ℕ) (parent : Location)
      → (at w (name ∷ parent) ≡ directory_link)
        ⊎ ((at w (name ∷ parent) ≡ directory)
            × ((child : List ℕ) → at w (child ∷ name ∷ parent) ≡ missing))
      → (w' : server.World) × (server.rmdir w (name ∷ parent) ≡ (w', ok tt))
        × ((q : Location) → at w' q ≡ without (name ∷ parent) (at w) q)

module _ (server : Removals) (onerror : Handler) (at : server.World → Location → Node)
    (trees : RemovesTrees server at) where
  open server use {World, islink, scandir, rmdir, remove}

  -- A call that returns without a report and has taken the tree below a path out.
  abbrev Taken : Location → World → List Location → Rmtree.Ended server onerror → Type 0
  Taken p w reports ended =
      (w' : World) × (ended ≡ (w', reports, some (ok tt)))
      × ((q : Location) → at w' q ≡ without p (at w) q)

  abbrev RemovesAt : ℕ → (World → List Location → Location → Rmtree.Ended server onerror) → Type 0
  RemovesAt depth f =
      (w : World) (reports : List Location) (name : List ℕ) (parent : Location)
      → at w (name ∷ parent) ≡ directory
      → Shallow depth (at w) (name ∷ parent)
      → Taken (name ∷ parent) w reports (f w reports (name ∷ parent))

  entry-Taken :
      (depth : ℕ) (f : World → List Location → Location → Rmtree.Ended server onerror)
      → RemovesAt depth f
      → (w : World) (reports : List Location) (p : Location) (e : Child) → e.path ≡ e.name ∷ p
      → Fits (at w (e.name ∷ p)) e
      → Shallow depth (at w) (e.name ∷ p)
      → Taken (e.name ∷ p) w reports (remove_entry server onerror f w reports e)
  unfolding remove_entry
  entry-Taken depth f h w reports p e path fit shallow = of_node (at w (e.name ∷ p)) refl fit
    where
      of_node :
          (k : Node)
          → at w (e.name ∷ p) ≡ k
          → Fits k e
          → Taken (e.name ∷ p) w reports (remove_entry server onerror f w reports e)
      of_node missing k fit = absurd fit
      of_node file k (link, dir) =
          let a = trees.removes w (e.name ∷ p) (inl k) in (a.0, rw (link, dir, path, a.1) refl, a.2)
      of_node directory k (link, dir) =
          let a = h w reports e.name p k shallow in (a.0, rw (link, dir, path) (a.1), a.2)
      of_node file_link k (link, attribute, dir) =
          let a = trees.removes w (e.name ∷ p) (inr k) in
          (a.0, rw (link, attribute, dir, path, a.1) refl, a.2)
      of_node attributeless_link k fit =
          absurd (Shallow-no_link depth (at w) (e.name ∷ p) shallow k)
      of_node directory_link k (link, attribute) =
          let a = trees.removes_directory w e.name p (inl k) in
          (a.0, rw (link, attribute, path, a.1) refl, a.2)

  -- The entries of a directory are taken out, one after the other.
  entries-Taken :
      (depth : ℕ) (f : World → List Location → Location → Rmtree.Ended server onerror)
      → RemovesAt depth f
      → (p : Location) (entries : List Child) (w : World) (reports : List Location)
      → Distinct entries
      → AllFit (at w) p entries
      → ((name : List ℕ) → Shallow depth (at w) (name ∷ p))
      → (w' : World) × (remove_entries server onerror f entries w reports
          ≡ (w', reports, some (ok tt)))
        × ((q : Location) → at w' q ≡ (if below_any entries p q then missing else at w q))
  unfolding remove_entries
  entries-Taken depth f h p [] w reports distinct fit shallow = (w, refl, λ q. refl)
  entries-Taken depth f h p (e ∷ entries) w reports distinct fit shallow =
      let a = entry-Taken depth f h w reports p e (fit.0) (fit.1) (shallow e.name) in
      let rest =
        entries-Taken depth f h p entries (a.0) reports (distinct.1)
          (AllFit-without (at w) (at (a.0)) e.name p entries (distinct.0) (a.2) (fit.2))
          (λ name.
            Shallow-Less depth (at w) (at (a.0)) (name ∷ p)
              (Less-without (at w) (at (a.0)) (e.name ∷ p) (a.2)) (shallow name)) in
      (
        rest.0,
        rw (a.1) (rest.1),
        without_both (at w) (at (a.0)) (at (rest.0)) e entries p (a.2) (rest.2),
      )

  -- No child is left when the entries are gone.
  children_gone :
      (p : Location) (entries : List Child) (w w' : World)
      → ((name : List ℕ) → at w (name ∷ p) ≢ missing → lists_name name entries ≡ true)
      → ((q : Location) → at w' q ≡ (if below_any entries p q then missing else at w q))
      → (name : List ℕ) → at w' (name ∷ p) ≡ missing
  children_gone p entries w w' complete left name = elim (Bool-cases (lists_name name entries)) [
    | inl named ↦ left (name ∷ p) ∙ rw (below_any-named entries name p named) refl
    | inr other ↦ elim (Node-missing (at w (name ∷ p))) [
      | inl none_there ↦ left (name ∷ p) ∙ rw none_there (if_same (below_any entries p (name ∷ p)))
      | inr there ↦ absurd (cc (complete name there, other))
    ]
  ]

  -- A directory whose entries are gone, and then the directory.
  all_gone :
      (p : Location) (entries : List Child) (w w' w'' : World)
      → ((q : Location) → at w' q ≡ (if below_any entries p q then missing else at w q))
      → ((q : Location) → at w'' q ≡ without p (at w') q)
      → (q : Location) → at w'' q ≡ without p (at w) q
  all_gone p entries w w' w'' left gone q = elim (Bool-cases (is_above p q)) [
    | inl below_p ↦ gone q ∙ rw below_p refl
    | inr other ↦ gone q ∙ rw other (left q ∙ rw (below_any-above entries p q other) refl)
  ]

  -- Of the directory, given what the calls of `islink` and `scandir` came to.
  scanned-Taken :
      (depth : ℕ) (f : World → List Location → Location → Rmtree.Ended server onerror)
      → RemovesAt depth f
      → (w : World) (reports : List Location) (name : List ℕ) (parent : Location)
        (entries : List Child)
      → at w (name ∷ parent) ≡ directory
      → ((child : List ℕ) → Shallow depth (at w) (child ∷ name ∷ parent))
      → Distinct entries
      → AllFit (at w) (name ∷ parent) entries
      → ((child : List ℕ)
          → at w (child ∷ name ∷ parent) ≢ missing
          → lists_name child entries ≡ true)
      → Taken
          (name ∷ parent)
          w
          reports
          (remove_scanned server onerror f reports (name ∷ parent) (w, entries, none))
  scanned-Taken depth f h w reports name parent entries is_directory shallow distinct fit complete =
      let p : Location = name ∷ parent in
      let a = entries-Taken depth f h p entries w reports distinct fit shallow in
      let stays : at (a.0) p ≡ directory =
        a.2 p ∙ rw (below_any-directory entries p) is_directory in
      let b =
        trees.removes_directory (a.0) name parent
          (inr (stays, children_gone p entries w (a.0) complete (a.2))) in
      (b.0, rw (a.1) (rw (b.1) refl), all_gone p entries w (a.0) (b.0) (a.2) (b.2))

  -- `rmtree` of a directory below the root of a share, on a server that answers every test and refuses
  -- nothing, returns with no report when its fuel is at least the depth of the tree, and no link in the tree
  -- leads to a directory without having FILE_ATTRIBUTE_DIRECTORY. It has taken out the directory and all
  -- that is below it, and every other path is as it was: such links as there are go, and what they lead
  -- to stays.
  pub rmtree-removes :
      (depth : ℕ) (w : World) (reports : List Location) (name : List ℕ) (parent : Location)
      → at w (name ∷ parent) ≡ directory
      → Shallow depth (at w) (name ∷ parent)
      → (w' : World) × (rmtree server onerror depth w reports (name ∷ parent)
          ≡ (w', reports, some (ok tt)))
        × ((q : Location) → at w' q ≡ without (name ∷ parent) (at w) q)
  unfolding rmtree
  rmtree-removes zero w reports name parent d shallow = absurd (shallow.1 d)
  rmtree-removes (suc depth) w reports name parent d shallow =
      let p : Location = name ∷ parent in
      let a = trees.tells_link w p in
      let d₁ : at (a.0) p ≡ directory = a.2 p ∙ d in
      let told : islink w p ≡ (a.0, ok false) = a.1 ∙ ap (λ k. (a.0, ok (is_link k))) d in
      let l = trees.lists (a.0) p d₁ in
      let same : (q : Location) → at (l.0) q ≡ at w q = λ q. l.3 q ∙ a.2 q in
      let r =
        scanned-Taken depth (rmtree server onerror depth) (rmtree-removes depth) (l.0) reports name
          parent (l.1) (same p ∙ d)
          (λ child.
            Shallow-Less depth (at w) (at (l.0)) (child ∷ p) (λ q. inr (same q)) (shallow.1 child))
          (l.4) (l.5) (l.6) in
      (r.0, rw (told) (rw (l.2) (r.1)), λ q. r.2 q ∙ without-same (at w) (at (l.0)) p same q)
