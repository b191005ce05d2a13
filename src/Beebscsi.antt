-- ===== src/Beebscsi.antt =====
-- src/acornfs/core/beebscsi.py: the descriptor of a BeebSCSI image, and the pair of files that make it up.
-- `pathlib` and the file system are parameters.
pub mod Pairs
pub mod Descriptors
use nautilus_acornfs.Prelude.{
  ℕ, zero, suc, ◌+◌, ◌*◌, Bool, true, false, not, ◌&&◌, ◌||◌, Option, none, some, List, [], ◌∷◌,
  ◌++◌, if◌then◌else◌, ltb, ◌==◌, length, get_or,
}
use nautilus_acornfs.Prelude.Text.{text_before, Text, Bytes, codes, text_eq}
use nautilus_acornfs.Prelude.Sorting.{sort}
use nautilus_acornfs.Prelude.Result.{
  Result, ok, err, descriptor_error, pair_discovery_error, raise_if, ◌>>=◌, ◌>>◌,
}

abbrev pub descriptor_size : ℕ
descriptor_size = 22

abbrev pub sector_size : ℕ
sector_size = 256

abbrev pub sectors_per_track : ℕ
sectors_per_track = 33

abbrev pub max_adfs_sectors : ℕ
max_adfs_sectors = 0x1FFFFF

pub record BeebScsiGeometry : Type 0 where
  pub cylinders : ℕ
  pub heads : ℕ
  pub sectors_per_track : ℕ
  pub sector_size : ℕ

abbrev pub sectors : BeebScsiGeometry → ℕ
sectors g = g.cylinders * g.heads * g.sectors_per_track

abbrev pub capacity : BeebScsiGeometry → ℕ
capacity g = sectors g * g.sector_size

pub record BeebScsiPair : Type 0 where
  pub dat_path : Text
  pub dsc_path : Text

abbrev pub geometry_of : ℕ → ℕ → BeebScsiGeometry
geometry_of c h = record {
  cylinders = c;
  heads = h;
  sectors_per_track = sectors_per_track;
  sector_size = sector_size;
}

-- `parse_descriptor`
unfoldable pub parse_descriptor : Bytes → Result BeebScsiGeometry
parse_descriptor content = do
  raise_if (not (length content == descriptor_size)) descriptor_error
  let cylinders = get_or content 13 0 * 256 + get_or content 14 0
  let heads = get_or content 15 0
  raise_if (cylinders == 0) descriptor_error
  raise_if (heads == 0) descriptor_error
  let geometry = geometry_of cylinders heads
  raise_if (ltb max_adfs_sectors (sectors geometry)) descriptor_error
  ok geometry

-- What `fstat` and `stat` tell of a file.
pub record FileStatus : Type 0 where
  pub is_regular : Bool
  pub device : ℕ
  pub inode : ℕ
  pub links : ℕ

-- `_verify_locked_member`: the status of the handle, that of the path if it has one, and whether the mount
-- is writable.
unfoldable pub verify_locked_member : FileStatus → Option FileStatus → Bool → Result (Unit {0})
verify_locked_member opened none writable = err pair_discovery_error
verify_locked_member opened (some current) writable = do
  raise_if
      (not opened.is_regular
        || not (opened.device == current.device && opened.inode == current.inode))
      pair_discovery_error
  raise_if (writable && not (opened.links == 1)) pair_discovery_error

-- `pathlib` and the file system.
pub record Paths : Type 0 where
  pub is_file : Text → Bool
  pub parent : Text → Text
  pub suffix : Text → Text
  pub stem : Text → Text
  pub casefold : Text → Text
  -- the paths of the entries of a directory and their names; `none` for an `OSError`
  pub iterdir : Text → Option (List (Text × Text))
  pub resolve : Text → Text
  -- the bytes and the size of a file; `none` for an `OSError`
  pub read_bytes : Text → Option Bytes
  pub st_size : Text → Option ℕ

module _ (fs : Paths) where
  -- The children that are files of the expected name but for case.
  unfoldable pub matching : Text → List (Text × Text) → List (Text × Text)
  matching expected [] = []
  matching expected ((path, name) ∷ children) =
      let rest = matching expected children in
      if text_eq (fs.casefold name) expected && fs.is_file path then (path, name) ∷ rest else rest

  abbrev sort_matching : Text → Option (List (Text × Text)) → Result (List (Text × Text))
  unfolding matching text_before
  sort_matching expected none = err pair_discovery_error
  sort_matching expected (some children) =
      ok (sort (λ x y. text_before x.1 y.1) (matching expected children))

  -- `_matching_files`
  unfoldable pub matching_files : Text → Text → Result (List (Text × Text))
  unfolding matching text_before
  matching_files directory expected = sort_matching expected (fs.iterdir directory)

  abbrev pub the_pair : List (Text × Text) → List (Text × Text) → Result BeebScsiPair
  the_pair (dat ∷ []) (dsc ∷ []) =
      ok (record { dat_path = fs.resolve dat.0; dsc_path = fs.resolve dsc.0 })
  the_pair dats dscs = err pair_discovery_error

  -- `discover_pair`
  unfoldable pub discover_pair : Text → Result BeebScsiPair
  unfolding matching_files
  discover_pair selected = do
    raise_if (not (fs.is_file selected)) pair_discovery_error
    let suffix = fs.casefold (fs.suffix selected)
    raise_if (not (text_eq suffix (codes ".dat") || text_eq suffix (codes ".dsc")))
        pair_discovery_error
    let stem = fs.casefold (fs.stem selected)
    dats ← matching_files (fs.parent selected) (stem ++ codes ".dat")
    dscs ← matching_files (fs.parent selected) (stem ++ codes ".dsc")
    the_pair dats dscs

  abbrev or_discovery_error : {A : Type 0} → Option A → Result A
  or_discovery_error none = err pair_discovery_error
  or_discovery_error (some a) = ok a

  -- `inspect_pair`: the pair, the size of its data, its geometry, and whether it is shorter than that.
  unfoldable pub inspect_pair : Text → Result (BeebScsiPair × ℕ × BeebScsiGeometry × Bool)
  unfolding discover_pair parse_descriptor
  inspect_pair selected = do
    pair ← discover_pair selected
    descriptor ← or_discovery_error (fs.read_bytes pair.dsc_path)
    dat_size ← or_discovery_error (fs.st_size pair.dat_path)
    geometry ← parse_descriptor descriptor
    raise_if (ltb (capacity geometry) dat_size) descriptor_error
    ok (pair, dat_size, geometry, ltb dat_size (capacity geometry))
