-- ===== src/Image/Cache/Bounds.antt =====
-- The contents and the accounts of the cache.
use nautilus_acornfs.Prelude.{
  ℕ, ◌+◌, ◌-◌, ◌≤◌, ◌≡◌, ◌≢◌, refl, Option, none, some, [], ◌∷◌, ◌++◌, ltb, length, arith,
  Bool-cases, inl, inr, Option-cases,
}
use nautilus_acornfs.Prelude.Text.{Bytes}
use nautilus_acornfs.Prelude.Dict.{
  Dict, IsDict, lookup, erase, lookup-erase_self, erase-IsDict, insert-new, erase-absent,
  lookup-append_new,
}
use nautilus_acornfs.Prelude.Sorting.{sum_by}
use nautilus_acornfs.Prelude.Result.{ok}
use nautilus_acornfs.Image.Cache.{Cache, forget, evict, store, cache_file, cached_file}

abbrev pub weight : ℕ × Bytes → ℕ
weight (inode, content) = length content

-- Every entry holds the bytes of its file.
abbrev pub IsCoherent : (ℕ → Option Bytes) → Dict Bytes → Type 0
IsCoherent files [] = Unit
IsCoherent files ((inode, content) ∷ rest) = (files inode ≡ some content) × IsCoherent files rest

-- Exact accounting within the limit, no inode twice, and entries that agree with the files.
pub record IsCache (files : ℕ → Option Bytes) (c : Cache) : Type 0 where
  pub keys : IsDict c.entries
  pub counted : c.used ≡ sum_by weight c.entries
  pub within : c.used ≤ c.limit
  pub coherent : IsCoherent files c.entries

sum-erase :
    (k : ℕ) (v : Bytes) (d : Dict Bytes)
    → lookup k d ≡ some v
    → sum_by weight (erase k d) + length v ≡ sum_by weight d
sum-erase k v [] h = cc
sum-erase k v ((j, w) ∷ d) h = ground (arith, sum-erase k v d)

sum-append : (d e : Dict Bytes) → sum_by weight (d ++ e) ≡ sum_by weight d + sum_by weight e
sum-append [] e = omega arith
sum-append (x ∷ d) e = omega (arith, sum-append d e)

IsCoherent-erase :
    (files : ℕ → Option Bytes) (k : ℕ) (d : Dict Bytes)
    → IsCoherent files d
    → IsCoherent files (erase k d)
IsCoherent-erase files k [] h = tt
IsCoherent-erase files k ((j, w) ∷ d) h = ground (arith, IsCoherent-erase files k d h.1)

IsCoherent-append :
    (files : ℕ → Option Bytes) (k : ℕ) (v : Bytes) (d : Dict Bytes)
    → IsCoherent files d
    → files k ≡ some v
    → IsCoherent files (d ++ (k, v) ∷ [])
IsCoherent-append files k v [] h e = (e, tt)
IsCoherent-append files k v (x ∷ d) h e = (h.0, IsCoherent-append files k v d h.1 e)

IsCoherent-lookup :
    (files : ℕ → Option Bytes) (k : ℕ) (v : Bytes) (d : Dict Bytes)
    → IsCoherent files d
    → lookup k d ≡ some v
    → files k ≡ some v
IsCoherent-lookup files k v [] h e = cc
IsCoherent-lookup files k v ((j, w) ∷ d) h e = ground (arith, IsCoherent-lookup files k v d h.1)

append-IsDict :
    (k : ℕ) (v : Bytes) (d : Dict Bytes) → IsDict d → lookup k d ≡ none → IsDict (d ++ (k, v) ∷ [])
append-IsDict k v [] h e = (refl, tt)
append-IsDict k v ((j, w) ∷ d) h e =
    ground (arith, append-IsDict k v d h.1, lookup-append_new k j v d)

-- What the eviction loop leaves.
record IsEvicted (files : ℕ → Option Bytes) (need limit inode : ℕ) (d : Dict Bytes)
    (r : Dict Bytes × ℕ) : Type 0 where
  keys : IsDict r.0
  counted : r.1 ≡ sum_by weight r.0
  room : need ≤ limit → r.1 + need ≤ limit
  coherent : IsCoherent files r.0
  absent : lookup inode d ≡ none → lookup inode r.0 ≡ none

evict-IsEvicted :
    (files : ℕ → Option Bytes) (need limit inode : ℕ) (d : Dict Bytes) (used : ℕ)
    → IsDict d
    → used ≡ sum_by weight d
    → IsCoherent files d
    → IsEvicted files need limit inode d (evict need limit d used)
unfolding evict
evict-IsEvicted files need limit inode [] used k c h = ground arith
evict-IsEvicted files need limit inode ((j, w) ∷ d) used k c h =
    ground (arith, evict-IsEvicted files need limit inode d (used - length w) k.1 (omega arith) h.1)

IsCoherent-change :
    (files files' : ℕ → Option Bytes) (k : ℕ) (d : Dict Bytes)
    → ((j : ℕ) → k ≢ j → files' j ≡ files j)
    → lookup k d ≡ none
    → IsCoherent files d
    → IsCoherent files' d
IsCoherent-change files files' k [] same e h = tt
IsCoherent-change files files' k ((j, w) ∷ d) same e h =
    ground (arith, same j, IsCoherent-change files files' k d same, h.0, h.1)

-- The entries without an inode, with the size taken off.
forget-IsCache :
    (files : ℕ → Option Bytes) (k : ℕ) (c : Cache)
    → IsCache files c
    → IsCache files (forget k c) × (lookup k (forget k c).entries ≡ none)
unfolding forget
forget-IsCache files k c h = elim (Option-cases (lookup k c.entries)) [
  | inl e ↦
      rw (e, erase-absent k c.entries e)
        (
          record {
            keys = h.keys;
            counted = omega (arith, h.counted);
            within = omega (arith, h.within);
            coherent = h.coherent;
          },
          e,
        )
  | inr (v, e) ↦ rw e (
    record {
      keys = erase-IsDict k c.entries h.keys;
      counted = omega (arith, h.counted, sum-erase k v c.entries e);
      within = omega (arith, h.within);
      coherent = IsCoherent-erase files k c.entries h.coherent;
    },
    lookup-erase_self k c.entries h.keys,
  )
]

store-IsCache :
    (files : ℕ → Option Bytes) (k : ℕ) (v : Bytes) (c : Cache)
    → IsCache files c
    → lookup k c.entries ≡ none
    → files k ≡ some v
    → IsCache files (store k v c)
unfolding store
store-IsCache files k v c h e f = elim (Bool-cases (ltb c.limit (length v))) [
  | inl large ↦ rw large h
  | inr fits ↦ rw fits (
      rw (insert-new k v (evict (length v) c.limit c.entries c.used).0 (kept.absent e)) (record {
        keys =
            append-IsDict k v (evict (length v) c.limit c.entries c.used).0 kept.keys
              (kept.absent e);
        counted = omega (
          arith,
          kept.counted,
          sum-append (evict (length v) c.limit c.entries c.used).0 ((k, v) ∷ []),
        );
        within = kept.room (ground arith);
        coherent =
            IsCoherent-append files k v (evict (length v) c.limit c.entries c.used).0 kept.coherent
              f;
      }))
]
  where
    kept :
        IsEvicted files (length v) c.limit k c.entries (evict (length v) c.limit c.entries c.used)
    kept = evict-IsEvicted files (length v) c.limit k c.entries c.used h.keys h.counted h.coherent

-- Storing the bytes that a file now has keeps the accounting exact and within the limit, whatever was
-- evicted, and the cache then agrees with the changed file and with all others.
pub cache_file-IsCache :
    (files files' : ℕ → Option Bytes) (inode : ℕ) (content : Bytes) (c : Cache)
    → IsCache files c
    → files' inode ≡ some content
    → ((j : ℕ) → inode ≢ j → files' j ≡ files j)
    → IsCache files' (cache_file inode content c)
unfolding cache_file
cache_file-IsCache files files' inode content c h new same =
    let (k, e) = forget-IsCache files inode c h in
    store-IsCache files' inode content (forget inode c)
      (record {
        keys = k.keys;
        counted = k.counted;
        within = k.within;
        coherent = IsCoherent-change files files' inode (forget inode c).entries same e k.coherent;
      })
      e new

-- A read through the cache gives the bytes of the file, by a hit or by a load, and leaves a cache that
-- is exact, bounded and in agreement with the files.
pub cached_file-eq :
    (files : ℕ → Option Bytes) (inode : ℕ) (content : Bytes) (c : Cache)
    → IsCache files c
    → files inode ≡ some content
    → ((cached_file inode (ok content) c).0 ≡ ok content)
      × IsCache files (cached_file inode (ok content) c).1
unfolding cached_file
cached_file-eq files inode content c h f = elim (Option-cases (lookup inode c.entries)) [
  | inl e ↦ rw e (refl, cache_file-IsCache files files inode content c h f (λ j ne. refl))
  | inr (v, e) ↦ rw e (
    cc (IsCoherent-lookup files inode v c.entries h.coherent e),
    record {
      keys =
          append-IsDict inode v (erase inode c.entries) (erase-IsDict inode c.entries h.keys)
            (lookup-erase_self inode c.entries h.keys);
      counted = omega (
        arith,
        h.counted,
        sum-erase inode v c.entries e,
        sum-append (erase inode c.entries) ((inode, v) ∷ []),
      );
      within = h.within;
      coherent =
          IsCoherent-append files inode v (erase inode c.entries)
            (IsCoherent-erase files inode c.entries h.coherent)
            (IsCoherent-lookup files inode v c.entries h.coherent e);
    },
  )
]
