-- ===== src/Vortex/Events/Delivery.antt =====
-- What an upstream event does to the cache and to the subscribers.
use manipulate.Prelude.{
  ◌≡◌, ◌≢◌, refl, String, Bool, true, false, Option, none, some, List, [], ◌∷◌, arith, Bool-cases,
  inl, inr, map, All,
}
use manipulate.Errors.{Error}
use manipulate.Context.{Types, Context}
use manipulate.Vortex.Commit.{
  Operation, Settings, Vortex, Verdict, stop, go_on, Writer, commit_local, write_local,
  local_verdict, or_new, after_local, log_if,
}
use manipulate.Vortex.Writes.Queue.{queue-commit_local}
use manipulate.Vortex.Subscriptions.{contains}
use manipulate.Vortex.Events.{
  EventType, Decoded, undecodable, entity, Event, Subscriber, is_filtered, send_event, push_event,
  send_error, push_errors, operation_of, commit_event, handle_decoded, handle_with, event_handler,
  after_handler, on_event,
}

module _ {A : Type 0} where
  events-send_error :
      (e : Error) (subscribers : List (Subscriber A))
      → map (λ s. s.events) (push_errors e subscribers) ≡ map (λ s. s.events) subscribers
  unfolding push_errors
  events-send_error e [] = refl
  events-send_error e (s ∷ subscribers) = cc (one s, events-send_error e subscribers)
    where
      one : (s : Subscriber A) → (send_error e s).events ≡ s.events
      one s = ground arith

  events-push_event :
      (evt : Event A) (subscribers : List (Subscriber A))
      → All (λ s. is_filtered s.is_filtered_out evt ≡ true) subscribers
      → map (λ s. s.events) (push_event evt subscribers) ≡ map (λ s. s.events) subscribers
  unfolding push_event
  events-push_event evt [] h = refl
  events-push_event evt (s ∷ subscribers) h = cc (one s h.0, events-push_event evt subscribers h.1)
    where
      one :
          (s : Subscriber A)
          → is_filtered s.is_filtered_out evt ≡ true
          → (send_event evt s).events ≡ s.events
      one s f = rw f

module _ {T : Types} {Up Down : Type 0} (settings : Settings T Up Down)
    (type_text : EventType → String) where
  up-log_if :
      (b : Bool) (operation : Operation) (o : T.Identifiable) (v : Vortex T Up Down)
      → (log_if settings b operation o v).up ≡ v.up
  up-log_if true operation o v = refl
  up-log_if false operation o v = refl

  up-after_local :
      (operation : Operation) (t : _) (e : Option Error) (o : T.Identifiable) (v : Vortex T Up Down)
      → (after_local settings operation t e o v).vortex.up ≡ v.up
  up-after_local operation t (some e) o v = refl
  up-after_local operation t none o v = up-log_if settings.enable_log operation o v

  up-write_local :
      (operation : Operation) (mctx : Context T) (d : Verdict T.Identifiable) (v : Vortex T Up Down)
      → (write_local settings operation mctx d v).vortex.up ≡ v.up
  up-write_local operation mctx (stop e o) v = refl
  up-write_local operation mctx (go_on t) v = up-after_local operation t _ _ _

  up-commit_local :
      (operation : Operation) (mctx : Option (Context T)) (o : T.Identifiable)
      (v : Vortex T Up Down)
      → (commit_local settings operation mctx o v).vortex.up ≡ v.up
  up-commit_local operation mctx o v =
      unfold commit_local in
      up-write_local operation (or_new settings mctx)
        (local_verdict settings operation (or_new settings mctx) o) v

  -- The upstream store and the queue are as they were.
  abbrev KeepsUpstream : Vortex T Up Down → Vortex T Up Down → Type 0
  KeepsUpstream v v' = (v'.up ≡ v.up) × (v'.queue ≡ v.queue)

  commit_event-KeepsUpstream :
      (operation : Option Operation) (kind : EventType) (o : T.Identifiable) (v : Vortex T Up Down)
      → KeepsUpstream v (commit_event settings type_text operation kind o v).1
  commit_event-KeepsUpstream none kind o v = (refl, refl)
  commit_event-KeepsUpstream (some operation) kind o v =
      (up-commit_local operation none o v, queue-commit_local settings operation none o v)

  handle_decoded-KeepsUpstream :
      (kind : EventType) (d : Decoded T.Identifiable) (v : Vortex T Up Down)
      → KeepsUpstream v (handle_decoded settings type_text kind d v).1
  handle_decoded-KeepsUpstream kind (undecodable e) v = (refl, refl)
  handle_decoded-KeepsUpstream kind (entity o) v =
      commit_event-KeepsUpstream (operation_of kind) kind o v

  handle_with-KeepsUpstream :
      (w : Option (Writer T Up)) (evt : Event T.Identifiable) (v : Vortex T Up Down)
      → KeepsUpstream v (handle_with settings type_text w evt v).1
  handle_with-KeepsUpstream none evt v = (refl, refl)
  handle_with-KeepsUpstream (some w) evt v = handle_decoded-KeepsUpstream evt.kind evt.decoded v

  vortex-after_handler :
      (evt : Event T.Identifiable) (subscribers : List (Subscriber T.Identifiable))
      (p : Option Error × Vortex T Up Down)
      → (after_handler settings type_text evt subscribers p).1 ≡ p.1
  vortex-after_handler evt subscribers (some e, v) = refl
  vortex-after_handler evt subscribers (none, v) = refl

  -- An event never changes the upstream store or the queue, and it changes the downstream store
  -- only if the events of its identity are committed.
  pub on_event-KeepsUpstream :
      (commits : List String) (evt : Event T.Identifiable)
      (subscribers : List (Subscriber T.Identifiable)) (v : Vortex T Up Down)
      → ((on_event settings type_text commits evt subscribers v).1.up ≡ v.up)
        × ((on_event settings type_text commits evt subscribers v).1.queue ≡ v.queue)
        × ((on_event settings type_text commits evt subscribers v).1.down ≢ v.down
            → contains commits evt.identity ≡ true)
  on_event-KeepsUpstream commits evt subscribers v =
      unfold on_event event_handler in
      rw vortex-after_handler elim (Bool-cases (contains commits evt.identity)) [
        | inl committed ↦ rw committed (
            let k = handle_with-KeepsUpstream settings.upstream evt v in
            (k.0, k.1, λ changed. refl))
        | inr other ↦ rw other (refl, refl, λ changed. absurd (changed refl))
      ]

  events-after_handler :
      (evt : Event T.Identifiable) (subscribers : List (Subscriber T.Identifiable))
      (p : Option Error × Vortex T Up Down)
      → All (λ s. is_filtered s.is_filtered_out evt ≡ true) subscribers
      → map (λ s. s.events) (after_handler settings type_text evt subscribers p).0
        ≡ map (λ s. s.events) subscribers
  events-after_handler evt subscribers (some e, v) h = events-send_error _ subscribers
  events-after_handler evt subscribers (none, v) h = events-push_event evt subscribers h

  -- If the filters of all subscribers exclude an event, none of their event channels changes.
  events-on_event :
      (commits : List String) (evt : Event T.Identifiable)
      (subscribers : List (Subscriber T.Identifiable)) (v : Vortex T Up Down)
      → All (λ s. is_filtered s.is_filtered_out evt ≡ true) subscribers
      → map (λ s. s.events) (on_event settings type_text commits evt subscribers v).0
        ≡ map (λ s. s.events) subscribers
  events-on_event commits evt subscribers v =
      unfold on_event in events-after_handler evt subscribers _
