-- ===== src/SearchCache.antt =====
-- The result cache of `smart_search` (crates/mesh-core/src/search_cache.rs): pages keyed by the
-- request, each served only against the snapshot generation that it was computed from. The
-- mutex's poisoning is a flag of the state; an operation returns the new state.
pub mod History
pub mod Coherence
pub mod Tests
use causalmesh.Prelude.{
  ℕ, Bool, true, false, ◌&&◌, Option, none, some, List, [], length, all, ltb, leb, not, nat_beq,
  if◌then◌else◌, PartialEq, ◌==◌, nat_eq, list_eq, ◌≡◌, ◌↔◌, arith, list_beq_iff, nat_beq_iff,
}
use causalmesh.Prelude.Assoc.{Assoc, lookup, insert as insert_entry, contains_key}
use causalmesh.Prelude.Text.{Text}
use causalmesh.Prelude.Paths.{FilePath, component_eq}

-- Everything that changes an answer for a fixed snapshot.
pub record SearchCacheKey : Type 0 where
  pub query : Text
  pub scope : FilePath
  pub raw_scope : Text
  pub include_body : Bool
  pub fuzzy : Bool
  pub include_tests : Bool
  pub limit : ℕ
  pub offset : ℕ

abbrev bool_beq : Bool → Bool → Bool
bool_beq true b = b
bool_beq false b = not b

abbrev key_beq : SearchCacheKey → SearchCacheKey → Bool
key_beq a b =
    a.query == b.query
    && (a.scope == b.scope
        && (a.raw_scope == b.raw_scope
            && (bool_beq a.include_body b.include_body
                && (bool_beq a.fuzzy b.fuzzy
                    && (bool_beq a.include_tests b.include_tests
                        && (a.limit == b.limit && a.offset == b.offset))))))

pub key_beq_iff : (a b : SearchCacheKey) → (key_beq a b ≡ true) ↔ (a ≡ b)
key_beq_iff a b = ground (
  arith,
  list_beq_iff a.query b.query,
  list_beq_iff a.scope b.scope,
  list_beq_iff a.raw_scope b.raw_scope,
)

instance abbrev pub key_eq : PartialEq SearchCacheKey
key_eq = record { eq = key_beq; eq_iff = key_beq_iff }

-- `(path, mtime, len)`
abbrev pub FileStamp : Type 0
FileStamp = FilePath × Option ℕ × ℕ

pub record CachedSearch : Type 0 where
  pub page : Text
  pub files_accessed : List Text
  pub file_stamps : List FileStamp

-- What the file system answers for a path: `none` if it cannot be read, else the modification
-- time, where the platform has one, and the length.
abbrev pub Stat : Type 0
Stat = FilePath → Option (Option ℕ × ℕ)

pub file_stamp : Stat → FilePath → FileStamp
file_stamp stat path = elim (stat path) [ none ↦ (path, none, 0) | some (m, n) ↦ (path, m, n) ]

abbrev mtime_beq : Option ℕ → Option ℕ → Bool
mtime_beq none none = true
mtime_beq (some a) (some b) = a == b
mtime_beq _ _ = false

abbrev stamp_beq : FileStamp → FileStamp → Bool
stamp_beq (p, m, n) (q, m', n') = p == q && (mtime_beq m m' && n == n')

pub is_fresh : Stat → CachedSearch → Bool
unfolding file_stamp
is_fresh stat page = all (λ stamp. stamp_beq (file_stamp stat stamp.0) stamp) page.file_stamps

pub record Inner : Type 0 where
  pub generation : ℕ
  pub entries : Assoc SearchCacheKey CachedSearch

pub record SearchCache : Type 0 where
  pub poisoned : Bool
  pub inner : Inner

abbrev pub max_entries : ℕ
max_entries = 256

abbrev pub empty : SearchCache
empty = record { poisoned = false; inner = record { generation = 0; entries = [] } }

-- `Inner` once a newer generation has been seen
abbrev reset : ℕ → Inner
reset generation = record { generation = generation; entries = [] }

get_inner : ℕ → SearchCacheKey → Inner → Inner × Option CachedSearch
get_inner generation key inner =
    if nat_beq inner.generation generation
    then (inner, lookup key inner.entries)
    else if ltb inner.generation generation
    then (reset generation, none)
    else (inner, none)

pub get : ℕ → SearchCacheKey → SearchCache → SearchCache × Option CachedSearch
unfolding get_inner
get generation key cache =
    if cache.poisoned
    then (cache, none)
    else (let (inner, page) = get_inner generation key cache.inner in
        (record cache { inner = inner }, page))

-- the two steps that make room, then the write
make_room : SearchCacheKey → Inner → Inner
make_room key inner =
    if leb max_entries (length inner.entries) && not (contains_key key inner.entries)
    then record inner { entries = [] }
    else inner

insert_inner : ℕ → SearchCacheKey → CachedSearch → Inner → Inner
unfolding make_room
insert_inner generation key value inner =
    if ltb generation inner.generation
    then inner
    else (let current = if ltb inner.generation generation then reset generation else inner in
        let roomy = make_room key current in
        record roomy { entries = insert_entry key value roomy.entries })

pub insert : ℕ → SearchCacheKey → CachedSearch → SearchCache → SearchCache
unfolding insert_inner
insert generation key value cache =
    if cache.poisoned
    then cache
    else record cache { inner = insert_inner generation key value cache.inner }

pub len : SearchCache → ℕ
len cache = if cache.poisoned then 0 else length cache.inner.entries
