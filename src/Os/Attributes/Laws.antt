-- ===== src/Os/Attributes/Laws.antt =====
-- smbclient/_os.py: what setting an extended attribute leaves to be read.
use smbprotocol.Prelude.{
  ℕ, ◌≡◌, refl, [], ◌∷◌, Bool, Option, none, some, Result, ok, err, smb_os_error, ◌==◌, not, ◌&&◌,
  if◌then◌else◌, ◌⊎◌, inl, inr,
}
use smbprotocol.Bytes.{Bytes}
use smbprotocol.Dfs.{chars_eq}
use smbprotocol.Os.{Location}
use smbprotocol.Os.Attributes.{
  Attributes, Attributed, find_attribute, status_no_eas_on_file, get_extended_attributes,
  value_or_error, getxattr,
}

-- An empty value is no value.
abbrev pub value_set : Bytes → Option Bytes
value_set [] = none
value_set (x ∷ xs) = some (x ∷ xs)

-- What is documented of a server: a file answers with its attributes, or says that it has none; setting
-- one sets that one, and removes it where the value is empty.
pub record HoldsAttributes (server : Attributed)
    (attributes : server.World → Location → Bool → Attributes) : Type 0 where
  pub answers :
      (w : server.World) (p : Location) (follow : Bool)
      → (w' : server.World) × ((server.query w p follow ≡ (w', ok (attributes w p follow)))
          ⊎ ((attributes w p follow ≡ [])
              × (server.query w p follow ≡ (w', err (smb_os_error status_no_eas_on_file)))))
        × ((name : Bytes)
            → find_attribute name (attributes w' p follow)
              ≡ find_attribute name (attributes w p follow))
  pub sets :
      (w : server.World) (p : Location) (follow : Bool) (name value : Bytes)
      → (w' : server.World) × (server.set_info w p follow name value ≡ (w', ok tt))
        × ((other : Bytes)
            → find_attribute other (attributes w' p follow) ≡ (
                if chars_eq other name
                then value_set value
                else find_attribute other (attributes w p follow)))

-- What a call raises or returns, by the flags and by whether the attribute is there: with XATTR_CREATE,
-- 1, one that is there is STATUS_OBJECT_NAME_COLLISION, and with XATTR_REPLACE, 2, one that is not
-- there is STATUS_OBJECT_NAME_NOT_FOUND.
abbrev pub answered : ℕ → Bool → Result (Unit {0})
answered flags present =
    if flags == 1 && present
    then err (smb_os_error 0xC0000035)
    else if flags == 2 && not present
    then err (smb_os_error 0xC0000034)
    else ok tt

-- The value of an attribute after another was to be set.
abbrev pub stored :
    Result (Unit {0}) → Bytes → Bytes → (Bytes → Option Bytes) → Bytes → Option Bytes
stored (ok _) name value before other =
    if chars_eq other name then value_set value else before other
stored (err e) name value before other = before other

module _ (server : Attributed) (attributes : server.World → Location → Bool → Attributes)
    (holds : HoldsAttributes server attributes) where
  open server use {World, query, set_info}

  -- The attributes are got, where there are none too.
  got :
      (w : World) (p : Location) (follow : Bool)
      → (w' : World) × (get_extended_attributes server w p follow
          ≡ (w', ok (attributes w p follow)))
        × ((name : Bytes)
            → find_attribute name (attributes w' p follow)
              ≡ find_attribute name (attributes w p follow))
  unfolding get_extended_attributes
  got w p follow =
      let a = holds.answers w p follow in
      elim (a.1) [
        | inl found ↦ (a.0, rw found refl, a.2)
        | inr (none_there, refused) ↦ (a.0, rw refused (rw none_there refl), a.2)
      ]

  -- `getxattr` returns the value of the attribute, and raises ENODATA where it is not set.
  pub getxattr-answers :
      (w : World) (p : Location) (name : Bytes) (follow : Bool)
      → (w' : World) × (getxattr server w p name follow
          ≡ (w', value_or_error server (find_attribute name (attributes w p follow))))
        × ((other : Bytes)
            → find_attribute other (attributes w' p follow)
              ≡ find_attribute other (attributes w p follow))
  unfolding getxattr
  getxattr-answers w p name follow = let g = got w p follow in (g.0, rw (g.1) refl, g.2)
