-- ===== src/Census.antt =====
-- pkg/framework/ownership.go and dircensus.go: what a directory holds, by owner and by name.
pub mod Entries
use nfs_verification.Prelude.{
  Bool, true, false, not, ◌&&◌, ◌||◌, List, [], ◌∷◌, ◌++◌, Option, none, some, if◌then◌else◌, ℤ,
  pos, ◌+ℤ◌, eq_ℤ, ltb_ℤ, leb_ℤ, sort_by,
}
use nfs_verification.Text.{Text, codes, eq_text, split, fields, cut}
use nfs_verification.Text.Number.{parse_int}

-- `OwnerCount`.
pub record OwnerCount : Type 0 where
  pub uid : ℤ
  pub gid : ℤ
  pub files : ℤ

-- `OwnerCensus`.
pub record OwnerCensus : Type 0 where
  pub total : ℤ
  pub counts : List OwnerCount
  pub raw : Text

-- `Counted`, of counts.
pub counted : List OwnerCount → ℤ
counted [] = pos 0
counted (e ∷ es) = e.files +ℤ counted es

pub same_owner : OwnerCount → OwnerCount → Bool
same_owner a b = eq_ℤ a.uid b.uid && eq_ℤ a.gid b.gid

-- The value of the map `held` at the owner of an entry, in which the last entry of an owner counts.
pub files_held : OwnerCount → ℤ → List OwnerCount → ℤ
unfolding same_owner
files_held e sofar [] = sofar
files_held e sofar (o ∷ os) = files_held e (if same_owner e o then o.files else sofar) os

all_held : List OwnerCount → List OwnerCount → Bool
unfolding files_held
all_held [] other = true
all_held (e ∷ es) other =
    let rest = all_held es other in
    if ltb_ℤ (files_held e (pos 0) other) e.files then false else rest

-- `SameOwnership`.
unfoldable pub same_ownership : OwnerCensus → OwnerCensus → Bool
unfolding all_held
same_ownership c other = all_held c.counts other.counts

-- What is read so far: the total, if there was one, and the counts.
pub record CensusRead : Type 0 where
  pub total : Option ℤ
  pub counts : List OwnerCount

owner_count : Option ℤ → Option ℤ → Option ℤ → Option OwnerCount
owner_count (some files) (some uid) (some gid) =
    some (record { uid = uid; gid = gid; files = files })
owner_count _ _ _ = none

owner_of : Option ℤ → Option (Text × Text) → Option OwnerCount
unfolding owner_count
owner_of files none = none
owner_of files (some (uid, gid)) = owner_count files (parse_int uid) (parse_int gid)

add_total : Option ℤ → CensusRead → Option CensusRead
add_total none c = none
add_total (some n) c = some (record c { total = some n })

add_count : Option OwnerCount → CensusRead → Option CensusRead
add_count none c = none
add_count (some e) c = some (record c { counts = c.counts ++ e ∷ [] })

-- The two fields of a line; `none` is an error.
census_fields : List Text → CensusRead → Option CensusRead
unfolding add_total add_count owner_of
census_fields (a ∷ (b ∷ [])) c =
    if eq_text a (codes "TOTAL")
    then add_total (parse_int b) c
    else add_count (owner_of (parse_int a) (cut b':' b)) c
census_fields _ c = some c

census_lines : List Text → CensusRead → Option CensusRead
unfolding census_fields
census_lines [] c = some c
census_lines (l ∷ ls) c = elim (census_fields (fields l) c) [
  | none ↦ none
  | some d ↦ census_lines ls d
]

pub owner_less : OwnerCount → OwnerCount → Bool
owner_less a b = if eq_ℤ a.uid b.uid then ltb_ℤ a.gid b.gid else ltb_ℤ a.uid b.uid

census_with : Text → CensusRead → Option ℤ → Option OwnerCensus
unfolding counted owner_less
census_with out c none = none
census_with out c (some total) =
    let counts = sort_by owner_less c.counts in
    if eq_ℤ (counted counts) total
    then some (record { total = total; counts = counts; raw = out })
    else none

census_of : Text → Option CensusRead → Option OwnerCensus
unfolding census_with
census_of out none = none
census_of out (some c) = census_with out c c.total

-- `ParseOwnerCensus`; `none` is an error.
unfoldable pub parse_owner_census : Text → Option OwnerCensus
unfolding census_of census_lines
parse_owner_census out =
    census_of out (census_lines (split b'\n' out) (record { total = none; counts = [] }))
