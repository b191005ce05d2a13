-- ===== src/Image/Cache.antt =====
-- The whole-file cache of `ReadOnlyImage`: `_cached_file` and `_cache_file`, over an `OrderedDict` whose
-- oldest entry stands first.
pub mod Bounds
use nautilus_acornfs.Prelude.{
  ℕ, ◌+◌, ◌-◌, Option, none, some, List, [], ◌∷◌, ◌++◌, if◌then◌else◌, ltb, length,
}
use nautilus_acornfs.Prelude.Text.{Bytes}
use nautilus_acornfs.Prelude.Dict.{Dict, lookup, insert, erase}
use nautilus_acornfs.Prelude.Result.{Result, ok, err}

pub record Cache : Type 0 where
  pub entries : Dict Bytes
  pub used : ℕ
  pub limit : ℕ

abbrev size_of : Option Bytes → ℕ
size_of none = 0
size_of (some old) = length old

-- `self._cache.pop(inode, None)`, with the size taken off.
unfoldable pub forget : ℕ → Cache → Cache
forget inode c = record c {
  entries = erase inode c.entries;
  used = c.used - size_of (lookup inode c.entries);
}

-- The eviction loop: the oldest entry goes while the new data does not fit.
unfoldable pub evict : ℕ → ℕ → Dict Bytes → ℕ → Dict Bytes × ℕ
evict need limit [] used = ([], used)
evict need limit ((inode, old) ∷ rest) used =
    let smaller = evict need limit rest (used - length old) in
    if ltb limit (used + need) then smaller else ((inode, old) ∷ rest, used)

-- `_cache_file`, after the old entry has gone.
unfoldable pub store : ℕ → Bytes → Cache → Cache
unfolding evict
store inode content c =
    if ltb c.limit (length content)
    then c
    else (let (kept, used) = evict (length content) c.limit c.entries c.used in
        record c { entries = insert inode content kept; used = used + length content })

unfoldable pub cache_file : ℕ → Bytes → Cache → Cache
unfolding forget store
cache_file inode content c = store inode content (forget inode c)

-- `_cached_file`, where `read_bytes` is the mount's: a hit moves the entry to the end.
abbrev loaded : ℕ → Result Bytes → Cache → Result Bytes × Cache
loaded inode (ok content) c = (ok content, cache_file inode content c)
loaded inode (err e) c = (err e, c)

abbrev hit_or_load : ℕ → Option Bytes → Result Bytes → Cache → Result Bytes × Cache
hit_or_load inode none content c = loaded inode content c
hit_or_load inode (some cached) content c =
    (ok cached, record c { entries = erase inode c.entries ++ (inode, cached) ∷ [] })

unfoldable pub cached_file : ℕ → Result Bytes → Cache → Result Bytes × Cache
unfolding cache_file
cached_file inode content c = hit_or_load inode (lookup inode c.entries) content c
