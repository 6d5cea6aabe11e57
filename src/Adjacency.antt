-- ===== src/Adjacency.antt =====
-- The adjacency lists of src/core/dependency-graph.ts, `Map<string, Set<string>>`, and the
-- edits that the methods of `DependencyGraph` make to one of them.
pub mod Paths
pub mod Edits
use autobeat.Prelude.{String, Option, none, some, List, [], ◌∷◌, add, delete}
use autobeat.Prelude.Dict
use autobeat.Prelude.Dict.{Dict}

abbrev pub Adjacency : Type 0
Adjacency = Dict (List String)

unfoldable pub or_empty : Option (List String) → List String
or_empty none = []
or_empty (some xs) = xs

-- What the loops over `graph.get(node)` walk.
unfoldable pub neighbours : Adjacency → String → List String
unfolding or_empty
neighbours m k = or_empty (Dict.get m k)

-- `if (!m.has(k)) m.set(k, new Set())`
unfoldable pub ensure : Adjacency → String → Adjacency
ensure m k = elim (Dict.get m k) [ none ↦ Dict.set m k [] | some _ ↦ m ]

-- `m.get(k)!.add(x)` behind its guard
unfoldable pub link : Adjacency → String → String → Adjacency
unfolding ensure neighbours
link m k x = let m' = ensure m k in Dict.set m' k (add (neighbours m' k) x)

-- A set after a deletion: an empty one loses its entry.
unfoldable pub put_back : Adjacency → String → List String → Adjacency
put_back m k [] = Dict.delete m k
put_back m k (x ∷ xs) = Dict.set m k (x ∷ xs)

-- `const s = m.get(k); if (s) { s.delete(x); if (s.size === 0) m.delete(k); }`
unfoldable pub unlink : Adjacency → String → String → Adjacency
unfolding put_back
unlink m k x = elim (Dict.get m k) [ none ↦ m | some xs ↦ put_back m k (delete xs x) ]

-- `const s = m.get(k); if (s && s.size === 0) m.delete(k);`
unfoldable pub drop_phantom : Adjacency → String → Adjacency
drop_phantom m k = elim (Dict.get m k) [ none ↦ m | some [] ↦ Dict.delete m k | some (x ∷ xs) ↦ m ]

-- `for (const k of ks) unlink(m, k, x)`
unfoldable pub unlink_all : Adjacency → List String → String → Adjacency
unfolding unlink
unlink_all m [] x = m
unlink_all m (k ∷ ks) x = unlink_all (unlink m k x) ks x
