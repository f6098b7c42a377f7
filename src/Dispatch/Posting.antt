-- ===== src/Dispatch/Posting.antt =====
-- The order and the number of the messages of a dispatcher, and that calls on it keep them.
use holder.Prelude.{
  ℕ, ◌+◌, ◌%◌, ◌^◌, ◌≡◌, refl, ap, List, [], ◌∷◌, ◌++◌, none, some, inl, inr, length, arith,
  Option-cases,
}
use holder.Dispatch.{
  MessageEnvelope, Event, sent, delivered, lost, receiver_ready, signalled, Dispatcher,
  DispatcherCall, send, create, remove, perform, perform_all, split_back, notify,
}

-- The messages that were sent, the latest first.
unfoldable pub sents : List Event → List MessageEnvelope
sents [] = []
sents (sent m ∷ es) = m ∷ sents es
sents (delivered r m ∷ es) = sents es
sents (lost m ∷ es) = sents es
sents (receiver_ready e ∷ es) = sents es
sents (signalled ∷ es) = sents es

-- The messages that were delivered or lost, the latest first.
unfoldable pub handled : List Event → List MessageEnvelope
handled [] = []
handled (sent m ∷ es) = handled es
handled (delivered r m ∷ es) = m ∷ handled es
handled (lost m ∷ es) = m ∷ handled es
handled (receiver_ready e ∷ es) = handled es
handled (signalled ∷ es) = handled es

-- The messages sent before some time, `base`, are handled but for those in `waiting`, and those sent
-- since then are in the queue. All but `acting` of the counted messages are waiting or in the queue.
-- The local queue is `local`.
pub record Holds (base local waiting : List MessageEnvelope) (acting : ℕ) (d : Dispatcher)
    : Type 0 where
  pub kept : d.local_queue ≡ local
  pub since : sents d.events ≡ d.queue ++ base
  pub before : base ≡ waiting ++ handled d.events
  pub counted : d.total_size ≡ (length d.queue + length waiting + acting) % 2 ^ 64

module _ {base local waiting : List MessageEnvelope} {acting : ℕ} where
  pub perform-Holds :
      (c : DispatcherCall) (d : Dispatcher)
      → Holds base local waiting acting d
      → Holds base local waiting acting (perform c d)
  unfolding perform sents handled
  perform-Holds (send rcvr_id p_message) d h = record {
    kept = h.kept;
    since = ap (λ ms. record { receiver_id = rcvr_id; p_message = p_message } ∷ ms) h.since;
    before = h.before;
    counted = omega (arith, h.counted);
  }
  perform-Holds (create none dispatch_id) d h = h
  perform-Holds (create (some l) dispatch_id) d h = record {
    kept = h.kept;
    since = h.since;
    before = h.before;
    counted = h.counted;
  }
  perform-Holds (remove rcv_id) d h = record {
    kept = h.kept;
    since = h.since;
    before = h.before;
    counted = h.counted;
  }

  pub perform_all-Holds :
      (cs : List DispatcherCall) (d : Dispatcher)
      → Holds base local waiting acting d
      → Holds base local waiting acting (perform_all cs d)
  unfolding perform_all
  perform_all-Holds [] d h = h
  perform_all-Holds (c ∷ cs) d h = perform_all-Holds cs (perform c d) (perform-Holds c d h)

-- What a listener does when it is called keeps what holds once the call is recorded.
pub notify-Holds :
    (react : List Event → List DispatcherCall) (event : Event) (d : Dispatcher)
    {base local waiting : List MessageEnvelope} {acting : ℕ}
    → Holds base local waiting acting (record d { events = event ∷ d.events })
    → Holds base local waiting acting (notify react event d)
unfolding notify
notify-Holds react event d h =
    perform_all-Holds (react (event ∷ d.events)) (record d { events = event ∷ d.events }) h

pub split_back-eq_none {ℓ} : {A : Type ℓ} (xs : List A) → split_back xs ≡ none → xs ≡ []
unfolding split_back
split_back-eq_none [] h = refl
split_back-eq_none (x ∷ xs) h = ground arith

pub split_back-eq_some {ℓ} :
    {A : Type ℓ} (xs : List A) {rest : List A} {last : A}
    → split_back xs ≡ some (rest, last)
    → xs ≡ rest ++ last ∷ []
unfolding split_back
split_back-eq_some [] h = absurd (ground arith)
split_back-eq_some (x ∷ xs) {rest} {last} h = elim (Option-cases (split_back xs)) [
  | inl e ↦ ground (arith, split_back-eq_none xs)
  | inr ((r, l), e) ↦ ground (arith, split_back-eq_some xs e)
]
