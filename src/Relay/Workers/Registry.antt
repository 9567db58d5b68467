-- ===== src/Relay/Workers/Registry.antt =====
-- Who is in the worker registry, after any schedule.
use xrestream.Base.{
  ℕ, ◌&&◌, ◌<◌, ◌∷◌, ◌≡◌, ==_iff, ==_self, Bool, Distinct, Map, Option, Option-cases, Text, [],
  arith, delete, delete-Distinct, false, inl, inr, insert-Distinct, lookup, lookup-cons,
  lookup-delete, lookup-insert, nat_eq, none, not, some, text_eq, true,
}
use xrestream.Store.{Channel}
use xrestream.Relay.Workers.{
  Phase, leaving, gone, Worker, State, init, register, start_worker, cancel_task, stop_worker,
  cancel_all, stop_all, set_phase, set_status,
}

-- The worker has not yet called releaseWorker.
abbrev pub holds : Phase → Bool
holds leaving = false
holds gone = false
holds _ = true

abbrev pub is_active : Worker → Bool
is_active w = holds w.phase && not w.cancelled

-- The task behind a registered handle is active and serves the channel that it is registered for.
abbrev pub Serves : Text → Option Worker → Type 0
Serves id none = ⊥
Serves id (some w) = (w.channel.id ≡ id) × (is_active w ≡ true)

pub record Inv (s : State) : Type 0 where
  pub distinct : Distinct s.workers
  pub serving : (id : Text) (h : ℕ) → lookup id s.workers ≡ some h → Serves id (lookup h s.tasks)
  pub registered :
      (h : ℕ) (w : Worker)
      → lookup h s.tasks ≡ some w
      → is_active w ≡ true
      → lookup w.channel.id s.workers ≡ some h
  pub fresh : (h : ℕ) (w : Worker) → lookup h s.tasks ≡ some w → h < s.next_handle

pub init-Inv : Inv init
unfolding init lookup
init-Inv = record {
  distinct = tt;
  serving = λ id h e. absurd (cc);
  registered = λ h w e a. absurd (cc);
  fresh = λ h w e. absurd (cc);
}

registered-lt :
    (s : State) (id : Text) (h : ℕ) → Inv s → lookup id s.workers ≡ some h → h < s.next_handle
registered-lt s id h v e = elim (Option-cases (lookup h s.tasks)) [
  | inl lost ↦ absurd (rw lost at (v.serving id h e))
  | inr (w, found) ↦ v.fresh h w found
]

register-Inv :
    (s : State) (ch : Channel) → Inv s → lookup ch.id s.workers ≡ none → Inv (register s ch)
unfolding register
register-Inv s ch v n = record {
  distinct = insert-Distinct ch.id s.next_handle s.workers v.distinct;
  serving = λ id h.
      rw (lookup-insert, lookup-insert)
        (ground (arith, ==_iff ch.id id, v.serving id h, registered-lt s id h v));
  registered = λ h w.
      rw (lookup-insert, lookup-insert)
        (ground (arith, ==_iff ch.id w.channel.id, v.registered h w, v.fresh h w));
  fresh = λ h w. rw lookup-insert (ground (arith, v.fresh h w));
}

pub start_worker-Inv : (s : State) (ch : Channel) → Inv s → Inv (start_worker s ch)
unfolding start_worker
start_worker-Inv s ch v = ground (arith, register-Inv s ch v)

-- Unregistering a handle together with cancelling its context.
stopped-Inv :
    (s : State) (id : Text) (h : ℕ)
    → Inv s
    → lookup id s.workers ≡ some h
    → Inv (record s { workers = delete id s.workers; tasks = cancel_task h s.tasks })
unfolding cancel_task
stopped-Inv s id h v e = elim (Option-cases (lookup h s.tasks)) [
  | inl lost ↦ absurd (rw lost at (v.serving id h e))
  | inr (w, found) ↦
      rw (found, cancel_task)
        (record {
          distinct = delete-Distinct id s.workers v.distinct;
          serving = λ id' h'.
              rw (lookup-delete, lookup-insert)
                (ground (arith, ==_iff id id', v.serving id' h', v.serving id h e));
          registered = λ h' w'.
              rw (lookup-delete, lookup-insert)
                (ground (arith, ==_iff id w'.channel.id, v.registered h' w'));
          fresh = λ h' w'. rw lookup-insert (ground (arith, v.fresh h' w', v.fresh h w found));
        })
]

pub stop_worker-Inv : (s : State) (id : Text) → Inv s → Inv (stop_worker s id)
unfolding stop_worker
stop_worker-Inv s id v = elim (Option-cases (lookup id s.workers)) [
  | inl idle ↦ rw (idle, stop_worker) v
  | inr (h, found) ↦ rw (found, stop_worker) (stopped-Inv s id h v found)
]

-- What a range over a map still has to visit stands in the map.
abbrev Agrees : Map Text ℕ → Map Text ℕ → Type 0
Agrees rest m = (id : Text) (h : ℕ) → lookup id rest ≡ some h → lookup id m ≡ some h

Agrees-delete :
    (id : Text) (h : ℕ) (rest m : Map Text ℕ)
    → lookup id rest ≡ none
    → Agrees ((id, h) ∷ rest) m
    → Agrees rest (delete id m)
Agrees-delete id h rest m f a id' h' e =
    let from_rest : lookup id' ((id, h) ∷ rest) ≡ some h' → lookup id' m ≡ some h' = a id' h' in
    rw lookup-delete (ground (arith, ==_iff id id', from_rest, lookup-cons id' id h rest))

cancel_all-Inv :
    (rest : Map Text ℕ) (s : State)
    → Inv s
    → Distinct rest
    → Agrees rest s.workers
    → Inv (cancel_all rest s)
unfolding cancel_all
cancel_all-Inv [] s v d a = v
cancel_all-Inv ((id, h) ∷ rest) s v d a =
    cancel_all-Inv rest _ (stopped-Inv s id h v (a id h (unfold lookup in rw (==_self id)))) d.1
      (Agrees-delete id h rest s.workers d.0 a)

pub stop_all-Inv : (s : State) → Inv s → Inv (stop_all s)
unfolding stop_all
stop_all-Inv s v = cancel_all-Inv s.workers s v v.distinct (λ id h e. e)

pub set_status-Inv : (s : State) (id status : Text) → Inv s → Inv (set_status s id status)
unfolding set_status
set_status-Inv s id status v = record {
  distinct = v.distinct;
  serving = v.serving;
  registered = v.registered;
  fresh = v.fresh;
}

pub set_phase-Inv :
    (s : State) (h : ℕ) (w : Worker) (p : Phase)
    → Inv s
    → lookup h s.tasks ≡ some w
    → holds p ≡ holds w.phase
    → Inv (set_phase s h w p)
unfolding set_phase
set_phase-Inv s h w p v found same = record {
  distinct = v.distinct;
  serving = λ id' h' e. rw lookup-insert (ground (arith, v.serving id' h' e));
  registered = λ h' w'. rw lookup-insert (ground (arith, v.registered h' w', v.registered h w));
  fresh = λ h' w'. rw lookup-insert (ground (arith, v.fresh h' w', v.fresh h w found));
}
