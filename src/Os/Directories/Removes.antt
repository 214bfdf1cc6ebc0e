-- ===== src/Os/Directories/Removes.antt =====
-- smbclient/_os.py: `removedirs` ends, and what it leaves.
use smbprotocol.Prelude.{
  ℕ, zero, suc, ◌+◌, ◌≤◌, ◌≡◌, refl, ◌∙◌, List, [], ◌∷◌, Bool, false, ◌||◌, some, ok, err,
  smb_os_error, length, if◌then◌else◌, arith, Bool-cases, ◌⊎◌, inl, inr, drop,
}
use smbprotocol.Os.{Location, dirname, path_eq}
use smbprotocol.Os.Directories.{Share, removedirs_loop, after_rmdir, removedirs}
use smbprotocol.Os.Directories.Laws.{Entry, missing}

-- Whether a path is one of the first `count` of a path, its parent, and so on.
abbrev pub is_removed : ℕ → Location → Location → Bool
is_removed zero q path = false
is_removed (suc count) q path = path_eq q path || is_removed count q (dirname path)

-- What is documented of a server: a directory is removed, and nothing else, or there is an error and
-- nothing changes; the root of a share stays.
pub record RemovesDirectories (share : Share) (at : share.World → Location → Entry) : Type 0 where
  pub root_stays :
      (w : share.World)
      → (w' : share.World) × (status : ℕ) × (share.rmdir w [] ≡ (w', err (smb_os_error status)))
        × ((q : Location) → at w' q ≡ at w q)
  pub removes_or_refuses :
      (w : share.World) (p : Location)
      → ((w' : share.World) × (share.rmdir w p ≡ (w', ok tt))
          × ((q : Location) → at w' q ≡ (if path_eq q p then missing else at w q)))
        ⊎ ((w' : share.World) × (status : ℕ) × (share.rmdir w p ≡ (w', err (smb_os_error status)))
            × ((q : Location) → at w' q ≡ at w q))

module _ (share : Share) (at : share.World → Location → Entry)
    (removes : RemovesDirectories share at) where
  open share use {World, rmdir}

  -- The directories that were removed, and the refusal that ended it.
  pub record Pruned (w : World) (path : Location) : Type 0 where
    pub count : ℕ
    pub last : World
    pub asked : World
    pub status : ℕ
    pub within : count ≤ length path
    pub leaves : (q : Location) → at last q ≡ (if is_removed count q path then missing else at w q)
    pub refused : rmdir asked (drop count path) ≡ (last, err (smb_os_error status))
    pub unchanged : (q : Location) → at last q ≡ at asked q

  refuse_step :
      (g : ℕ) (w w' : World) (p : Location) (status : ℕ)
      → rmdir w p ≡ (w', err (smb_os_error status))
      → removedirs_loop share (suc g) w p ≡ (w', some (ok tt))
  unfolding removedirs_loop after_rmdir
  refuse_step g w w' p status r = rw r refl

  remove_step :
      (g : ℕ) (w w' : World) (p : Location)
      → rmdir w p ≡ (w', ok tt)
      → removedirs_loop share (suc g) w p ≡ removedirs_loop share g w' (dirname p)
  unfolding removedirs_loop after_rmdir
  remove_step g w w' p r = rw r refl

  refused_at :
      (g : ℕ) (w w' : World) (p : Location) (status : ℕ)
      → rmdir w p ≡ (w', err (smb_os_error status))
      → ((q : Location) → at w' q ≡ at w q)
      → (t : Pruned w p) × (removedirs_loop share (suc g) w p ≡ (t.last, some (ok tt)))
  refused_at g w w' p status r same = (
    record {
      count = 0;
      last = w';
      asked = w;
      status = status;
      within = omega arith;
      leaves = same;
      refused = r;
      unchanged = same;
    },
    refuse_step g w w' p status r,
  )

  one_more :
      (w w' last : World) (name : List ℕ) (parent q : Location) (count : ℕ)
      → ((r : Location) → at w' r ≡ (if path_eq r (name ∷ parent) then missing else at w r))
      → at last q ≡ (if is_removed count q parent then missing else at w' q)
      → at last q ≡ (if is_removed (suc count) q (name ∷ parent) then missing else at w q)
  one_more w w' last name parent q count gone h =
      h ∙ elim (Bool-cases (is_removed count q parent)) [
        | inl before ↦ elim (Bool-cases (path_eq q (name ∷ parent))) [
          | inl same ↦ rw (before, same) refl
          | inr other ↦ rw (before, other) refl
        ]
        | inr not_before ↦ elim (Bool-cases (path_eq q (name ∷ parent))) [
          | inl same ↦ rw (not_before, same) (gone q ∙ rw same refl)
          | inr other ↦ rw (not_before, other) (gone q ∙ rw other refl)
        ]
      ]

  prune :
      (g : ℕ) (w : World) (p : Location)
      → length p ≤ g
      → (t : Pruned w p) × (removedirs_loop share (suc g) w p ≡ (t.last, some (ok tt)))
  prune g w [] h = let r = removes.root_stays w in refused_at g w r.0 [] r.1 r.2 r.3
  prune zero w (name ∷ parent) h = absurd (omega arith)
  prune (suc g) w (name ∷ parent) h =
      let rest = λ (w' : World). prune g w' parent (omega arith) in
      elim (removes.removes_or_refuses w (name ∷ parent)) [
        | inl (w', r, gone) ↦
            let (t, e) = rest w' in
            (
              record {
                count = suc t.count;
                last = t.last;
                asked = t.asked;
                status = t.status;
                within = omega (arith, t.within);
                leaves = λ q. one_more w w' t.last name parent q t.count gone (t.leaves q);
                refused = t.refused;
                unchanged = t.unchanged;
              },
              remove_step (suc g) w w' (name ∷ parent) r ∙ e,
            )
        | inr (w', status, r, same) ↦ refused_at (suc g) w w' (name ∷ parent) status r same
      ]

  -- `removedirs` returns. It has removed the path and the directories above it up to the first that the
  -- server refuses to remove, at the latest the root of the share, and every other entry is as it was.
  pub removedirs-prunes :
      (w : World) (path : Location)
      → (t : Pruned w path) × (removedirs share w path ≡ (t.last, some (ok tt)))
  unfolding removedirs
  removedirs-prunes w path =
      let enough : suc (length path) ≡ length path + 1 = omega arith in
      rw (← enough) (prune (length path) w path (omega arith))
