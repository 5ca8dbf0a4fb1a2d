-- ===== src/Redis/Sessions/Memory.antt =====
-- The keys of authentication in memory: the value that shows that the assumptions on `Sessions` can
-- be met.
use Prim.Native.String.{String}
use mathlib.Core.Logic.{ite, if_pos}
use text.Mathlib.Text.{◌==◌ as str_eq}
use movie_reservation_system.Base.{
  ℕ, ◌+◌, not, Option, none, some, List, [], ◌∷◌, ◌≡◌, refl, ltb, ◌==◌, if◌then◌else◌, keep,
}
use movie_reservation_system.Redis.Sessions.{AuthKey, AuthKey-discrete, Entry, count, bump}

pub record Memory : Type 0 where
  pub entries : AuthKey → Option (Entry × Option ℕ)
  pub sets : ℕ → List String

pub set_at_self : {A : Type 0} (k : AuthKey) (x y : A) → ite (AuthKey-discrete k k) x y ≡ x
set_at_self k x y = if_pos (AuthKey-discrete k k) refl x y

unfoldable pub alive : ℕ → Option (Entry × Option ℕ) → Option Entry
alive t none = none
alive t (some (v, none)) = some v
alive t (some (v, some e)) = if ltb t e then some v else none

unfoldable pub read : Memory → AuthKey → ℕ → Option Entry
unfolding alive
read s k t = alive t (s.entries k)

abbrev pub with_entry : AuthKey → Option (Entry × Option ℕ) → Memory → Memory
with_entry k x s = record s { entries = λ j. ite (AuthKey-discrete k j) x (s.entries j) }

unfoldable pub set : AuthKey → Entry → ℕ → ℕ → Memory → Memory
set k v ttl now s = with_entry k (some (v, some (now + ttl))) s

unfoldable pub del : AuthKey → ℕ → Memory → Memory
del k now s = with_entry k none s

-- The entry after `INCR`, which keeps the time to live.
unfoldable pub bumped : ℕ → Option (Entry × Option ℕ) → Option (Entry × Option ℕ)
bumped now none = some (count 1, none)
bumped now (some (v, none)) = elim (bump (some v)) [ none ↦ none | some w ↦ some (w, none) ]
bumped now (some (v, some e)) =
    if ltb now e
    then elim (bump (some v)) [ none ↦ none | some w ↦ some (w, some e) ]
    else some (count 1, none)

unfoldable pub incr : AuthKey → ℕ → Memory → Memory
unfolding bumped
incr k now s = with_entry k (bumped now (s.entries k)) s

unfoldable pub limited : ℕ → ℕ → Option (Entry × Option ℕ) → Option (Entry × Option ℕ)
unfolding alive
limited ttl now o = elim (alive now o) [ none ↦ none | some v ↦ some (v, some (now + ttl)) ]

unfoldable pub expire : AuthKey → ℕ → ℕ → Memory → Memory
unfolding limited
expire k ttl now s = with_entry k (limited ttl now (s.entries k)) s

abbrev pub with_members : ℕ → List String → Memory → Memory
with_members u js s = record s { sets = λ v. if u == v then js else s.sets v }

unfoldable pub sadd : ℕ → String → Memory → Memory
sadd u j s = with_members u (j ∷ s.sets u) s

unfoldable pub srem : ℕ → String → Memory → Memory
srem u j s = with_members u (keep (λ i. not (str_eq j i)) (s.sets u)) s

unfoldable pub del_set : ℕ → Memory → Memory
del_set u s = with_members u [] s
