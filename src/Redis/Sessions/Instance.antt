-- ===== src/Redis/Sessions/Instance.antt =====
-- The keys in memory do what `Sessions` asks of a server.
use Prim.Native.String.{String}
use mathlib.Core.Logic.{if_neg}
use text.Mathlib.Text.{◌==◌ as str_eq}
use text.Mathlib.TextEquality.{eq_iff}
use movie_reservation_system.Base.{
  ℕ, ◌+◌, ◌≤◌, not, Option, none, some, List, [], ◌∷◌, ◌≡◌, ◌≢◌, refl, ap, ◌∙◌, sym, ltb, ==_refl,
  ==_ne, if◌then◌else◌, keep, In, arith, inl, inr, Bool-cases,
}
use movie_reservation_system.Redis.Sessions.{
  AuthKey, AuthKey-discrete, Entry, Sessions, count, after_incr,
}
use movie_reservation_system.Redis.Sessions.Memory.{
  Memory, set_at_self, alive, read, with_entry, set, del, bumped, incr, limited, expire, sadd, srem,
  del_set,
}

read-with_entry :
    (k : AuthKey) (x : Option (Entry × Option ℕ)) (t : ℕ) (s : Memory)
    → read (with_entry k x s) k t ≡ alive t x
unfolding read
read-with_entry k x t s = ap (λ z. alive t z) (set_at_self k x (s.entries k))

read-with_other :
    (k j : AuthKey) (x : Option (Entry × Option ℕ)) (t : ℕ) (s : Memory)
    → k ≢ j
    → read (with_entry k x s) j t ≡ read s j t
unfolding read
read-with_other k j x t s h = ap (λ z. alive t z) (if_neg (AuthKey-discrete k j) h x (s.entries j))

alive-bumped :
    (now t : ℕ) (o : Option (Entry × Option ℕ))
    → now ≤ t
    → alive t (bumped now o) ≡ after_incr (alive now o) (alive t o)
unfolding alive bumped
alive-bumped now t none h = refl
alive-bumped now t (some (Entry.word v, none)) h = refl
alive-bumped now t (some (count n, none)) h = refl
alive-bumped now t (some (Entry.word v, some e)) h = ground arith
alive-bumped now t (some (count n, some e)) h = ground arith

alive-limited :
    (ttl now t : ℕ) (o : Option (Entry × Option ℕ))
    → alive t (limited ttl now o) ≡ (if ltb t (now + ttl) then alive now o else none)
unfolding alive limited
alive-limited ttl now t none = ground arith
alive-limited ttl now t (some (v, none)) = ground arith
alive-limited ttl now t (some (v, some e)) = ground arith

alive_later :
    (now t : ℕ) (o : Option (Entry × Option ℕ)) → now ≤ t → alive now o ≡ none → alive t o ≡ none
unfolding alive
alive_later now t none h e = refl
alive_later now t (some (v, none)) h e = ground arith
alive_later now t (some (v, some d)) h e = ground arith

keep_others :
    (i j : String) (is : List String) → j ≢ i → In i is → In i (keep (λ x. not (str_eq j x)) is)
keep_others i j [] n m = m
keep_others i j (x ∷ is) n m = elim (Bool-cases (str_eq j x)) [
  | inl e ↦
      rw e
        (elim m [ inl p ↦ absurd (n ((eq_iff j x).0 e ∙ sym p)) | inr q ↦ keep_others i j is n q ])
  | inr e ↦ rw e (elim m [ inl p ↦ inl p | inr q ↦ inr (keep_others i j is n q) ])
]

pub set_lem :
    (k : AuthKey) (v : Entry) (ttl now t : ℕ) (s : Memory)
    → now ≤ t
    → read (set k v ttl now s) k t ≡ (if ltb t (now + ttl) then some v else none)
unfolding set alive
set_lem k v ttl now t s h = read-with_entry k (some (v, some (now + ttl))) t s

pub del_lem : (k : AuthKey) (now t : ℕ) (s : Memory) → now ≤ t → read (del k now s) k t ≡ none
unfolding del alive
del_lem k now t s h = read-with_entry k none t s

pub incr_lem :
    (k : AuthKey) (now t : ℕ) (s : Memory)
    → now ≤ t
    → read (incr k now s) k t ≡ after_incr (read s k now) (read s k t)
unfolding incr read
incr_lem k now t s h = read-with_entry k _ t s ∙ alive-bumped now t (s.entries k) h

pub expire_lem :
    (k : AuthKey) (ttl now t : ℕ) (s : Memory)
    → now ≤ t
    → read (expire k ttl now s) k t ≡ (if ltb t (now + ttl) then read s k now else none)
unfolding expire read
expire_lem k ttl now t s h = read-with_entry k _ t s ∙ alive-limited ttl now t (s.entries k)

pub read_later :
    (k : AuthKey) (now t : ℕ) (s : Memory) → now ≤ t → read s k now ≡ none → read s k t ≡ none
unfolding read
read_later k now t s = alive_later now t (s.entries k)

pub sadd_new : (u : ℕ) (j : String) (s : Memory) → In j ((sadd u j s).sets u)
unfolding sadd
sadd_new u j s = rw (==_refl u) (inl refl)

pub sadd_kept : (u : ℕ) (i j : String) (s : Memory) → In i (s.sets u) → In i ((sadd u j s).sets u)
unfolding sadd
sadd_kept u i j s m = rw (==_refl u) (inr m)

pub srem_kept :
    (u : ℕ) (i j : String) (s : Memory) → j ≢ i → In i (s.sets u) → In i ((srem u j s).sets u)
unfolding srem
srem_kept u i j s n m = rw (==_refl u) (keep_others i j (s.sets u) n m)

pub sadd-others : (u v : ℕ) (j : String) (s : Memory) → v ≢ u → (sadd v j s).sets u ≡ s.sets u
unfolding sadd
sadd-others u v j s n = rw (==_ne v u n)

pub srem-others : (u v : ℕ) (j : String) (s : Memory) → v ≢ u → (srem v j s).sets u ≡ s.sets u
unfolding srem
srem-others u v j s n = rw (==_ne v u n)

pub del_set-others : (u v : ℕ) (s : Memory) → v ≢ u → (del_set v s).sets u ≡ s.sets u
unfolding del_set
del_set-others u v s n = rw (==_ne v u n)

pub set-others :
    (k j : AuthKey) (v : Entry) (ttl now t : ℕ) (s : Memory)
    → k ≢ j
    → read (set k v ttl now s) j t ≡ read s j t
unfolding set
set-others k j v ttl now t s = read-with_other k j _ t s

pub del-others :
    (k j : AuthKey) (now t : ℕ) (s : Memory) → k ≢ j → read (del k now s) j t ≡ read s j t
unfolding del
del-others k j now t s = read-with_other k j _ t s

pub incr-others :
    (k j : AuthKey) (now t : ℕ) (s : Memory) → k ≢ j → read (incr k now s) j t ≡ read s j t
unfolding incr
incr-others k j now t s = read-with_other k j _ t s

pub expire-others :
    (k j : AuthKey) (ttl now t : ℕ) (s : Memory)
    → k ≢ j
    → read (expire k ttl now s) j t ≡ read s j t
unfolding expire
expire-others k j ttl now t s = read-with_other k j _ t s

pub sadd-read :
    (u : ℕ) (i : String) (k : AuthKey) (t : ℕ) (s : Memory) → read (sadd u i s) k t ≡ read s k t
unfolding sadd read
sadd-read u i k t s = refl

pub srem-read :
    (u : ℕ) (i : String) (k : AuthKey) (t : ℕ) (s : Memory) → read (srem u i s) k t ≡ read s k t
unfolding srem read
srem-read u i k t s = refl

pub del_set-read : (u : ℕ) (k : AuthKey) (t : ℕ) (s : Memory) → read (del_set u s) k t ≡ read s k t
unfolding del_set read
del_set-read u k t s = refl

pub set-members :
    (k : AuthKey) (v : Entry) (ttl now u : ℕ) (s : Memory) → (set k v ttl now s).sets u ≡ s.sets u
unfolding set
set-members k v ttl now u s = refl

pub del-members : (k : AuthKey) (now u : ℕ) (s : Memory) → (del k now s).sets u ≡ s.sets u
unfolding del
del-members k now u s = refl

pub incr-members : (k : AuthKey) (now u : ℕ) (s : Memory) → (incr k now s).sets u ≡ s.sets u
unfolding incr
incr-members k now u s = refl

pub expire-members :
    (k : AuthKey) (ttl now u : ℕ) (s : Memory) → (expire k ttl now s).sets u ≡ s.sets u
unfolding expire
expire-members k ttl now u s = refl

abbrev pub memory : Sessions
memory = record {
  State = Memory;
  read = read;
  members = λ s u. s.sets u;
  set = set;
  del = del;
  incr = incr;
  expire = expire;
  sadd = sadd;
  srem = srem;
  del_set = del_set;
  set_lem = set_lem;
  del_lem = del_lem;
  incr_lem = incr_lem;
  expire_lem = expire_lem;
  read_later = read_later;
  sadd_new = sadd_new;
  sadd_kept = sadd_kept;
  srem_kept = srem_kept;
  sadd-others = sadd-others;
  srem-others = srem-others;
  del_set-others = del_set-others;
  set-others = set-others;
  del-others = del-others;
  incr-others = incr-others;
  expire-others = expire-others;
  sadd-read = sadd-read;
  srem-read = srem-read;
  del_set-read = del_set-read;
  set-members = set-members;
  del-members = del-members;
  incr-members = incr-members;
  expire-members = expire-members;
}
