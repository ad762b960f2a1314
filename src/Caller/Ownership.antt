-- ===== src/Caller/Ownership.antt =====
-- Every pending entry of a `Caller` (golang/client/client.go) belongs to a live request.
use how.Base.{
  ℕ, zero, suc, Bytes, ◌≡◌, ◌≢◌, refl, ap, ◌∙◌, List, [], ◌∷◌, ◌++◌, some, arith, Bool-cases, inl,
  inr, get_elem?, set, length, get_elem?-set_ne, get_elem?-set_self, get_elem?-append_self,
  get_elem?-append_old, get_elem?-lt-length, bytes_eq, bytes_eq_iff,
}
use native.Mathlib.Decide.{ℕ_discrete}
use how.Base.Keyed.{Keyed, lookup, insert, delete, lookup-insert, lookup-delete}
use how.Caller.System.{Thread, ended}

-- The request that an entry of the pending map belongs to: it has the id and the queue of the entry,
-- and has not ended.
pub record Owner (k : Bytes) (a : ℕ) (ts : List Thread) : Type 0 where
  pub place : ℕ
  pub thread : Thread
  pub found : get_elem? ts place ≡ some thread
  pub same_id : thread.id ≡ k
  pub same_addr : thread.addr ≡ a
  pub live : thread.phase ≢ ended

abbrev pub AllOwned : Keyed ℕ → List Thread → Type 0
AllOwned pending ts = (k : Bytes) (a : ℕ) → lookup k pending ≡ some a → Owner k a ts

pub set-same : (ts : List Thread) (i : ℕ) (t : Thread) → get_elem? ts i ≡ some t → set ts i t ≡ ts
set-same [] i t at = refl
set-same (x ∷ ts) zero t at = ground arith
set-same (x ∷ ts) (suc i) t at = ap (◌∷◌ x) (set-same ts i t at)

-- A thread more.
Owner-append :
    (k : Bytes) (a : ℕ) (ts : List Thread) (t : Thread) → Owner k a ts → Owner k a (ts ++ t ∷ [])
Owner-append k a ts t o = record {
  place = o.place;
  thread = o.thread;
  found =
      get_elem?-append_old ts (t ∷ []) o.place (get_elem?-lt-length ts o.place o.found) ∙ o.found;
  same_id = o.same_id;
  same_addr = o.same_addr;
  live = o.live;
}

-- Another thread moves.
Owner-set :
    (k : Bytes) (a : ℕ) (ts : List Thread) (i : ℕ) (t : Thread) (o : Owner k a ts)
    → i ≢ o.place
    → Owner k a (set ts i t)
Owner-set k a ts i t o other = record {
  place = o.place;
  thread = o.thread;
  found = get_elem?-set_ne ts i o.place t other ∙ o.found;
  same_id = o.same_id;
  same_addr = o.same_addr;
  live = o.live;
}

-- A new request is registered and its goroutine waits.
pub AllOwned-insert :
    (p : Keyed ℕ) (ts : List Thread) (t : Thread)
    → t.phase ≢ ended
    → AllOwned p ts
    → AllOwned (insert t.id t.addr p) (ts ++ t ∷ [])
AllOwned-insert p ts t live owned k a h = elim (Bool-cases (bytes_eq t.id k)) [
  | inl mine ↦ record {
    place = length ts;
    thread = t;
    found = get_elem?-append_self ts t;
    same_id = (bytes_eq_iff t.id k).0 mine;
    same_addr = ground (arith, lookup-insert t.id k t.addr p);
    live = live;
  }
  | inr other ↦ Owner-append k a ts t (owned k a (ground (arith, lookup-insert t.id k t.addr p)))
]

-- A registration is undone.
pub AllOwned-undo :
    (p : Keyed ℕ) (ts : List Thread) (id : Bytes) (a : ℕ)
    → AllOwned p ts
    → AllOwned (delete id (insert id a p)) ts
AllOwned-undo p ts id a owned k b h =
    owned k b (ground (arith, lookup-delete id k (insert id a p), lookup-insert id k a p))

-- A thread moves and stays live, or moves and its id is removed.
pub AllOwned-move :
    (p : Keyed ℕ) (ts : List Thread) (i : ℕ) (t t' : Thread)
    → get_elem? ts i ≡ some t
    → t'.id ≡ t.id
    → t'.addr ≡ t.addr
    → t'.phase ≢ ended
    → AllOwned p ts
    → AllOwned p (set ts i t')
AllOwned-move p ts i t t' at same_id same_addr live owned k a h =
    let o : Owner k a ts = owned k a h in
    elim (ℕ_discrete i o.place) [
      | yes here ↦ record {
        place = i;
        thread = t';
        found = get_elem?-set_self ts i t' t at;
        same_id = ground (arith, o.found, o.same_id);
        same_addr = ground (arith, o.found, o.same_addr);
        live = live;
      }
      | no other ↦ Owner-set k a ts i t' o other
    ]

pub AllOwned-remove :
    (p : Keyed ℕ) (ts : List Thread) (i : ℕ) (t t' : Thread)
    → get_elem? ts i ≡ some t
    → AllOwned p ts
    → AllOwned (delete t.id p) (set ts i t')
AllOwned-remove p ts i t t' at owned k a h =
    let o : Owner k a ts = owned k a (ground (arith, lookup-delete t.id k p)) in
    Owner-set k a ts i t' o
      (λ here. ground (arith, lookup-delete t.id k p, o.found, o.same_id, bytes_eq_iff t.id k))
