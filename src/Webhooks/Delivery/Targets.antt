-- ===== src/Webhooks/Delivery/Targets.antt =====
-- Which webhooks a tip reaches.
use novatip_backend.Prelude.{
  ids_distinct, ℕ, ◌≡◌, refl, sym, ap, ◌∙◌, String, Bool, true, false, ◌&&◌, Option, none, some,
  List, [], ◌∷◌, ◌++◌, str_eq, if◌then◌else◌, any, find?, filter, Bool-cases, Option-cases, inl,
  inr, arith, eq_iff,
}
use mathlib.Core.List.{append_assoc, append-nil}
use novatip_backend.Store.{Creator, Webhook, Db}
use novatip_backend.Indexer.Persist.{TipEvent}
use novatip_backend.Webhooks.Queue.{Queue, queue_delivery}
use novatip_backend.Webhooks.Queue.Laws.{jobs_of, jobs_of-process_queue}
use novatip_backend.Webhooks.Delivery.{queue_all, dispatch_to, dispatch_webhooks}

-- the jar's creator has webhooks switched on, and the webhook is one of the creator's and is on
abbrev pub is_target : TipEvent → Db → Webhook → Bool
is_target event db w =
    any (λ c. str_eq c.jar_id event.jar_id && (c.webhook_enabled && str_eq w.creator_id c.id))
      db.creators
    && w.enabled

filter-ext :
    (p q : Webhook → Bool) (ws : List Webhook)
    → ((w : Webhook) → p w ≡ q w)
    → filter p ws ≡ filter q ws
filter-ext p q [] h = refl
filter-ext p q (w ∷ ws) h = rw (h w, filter-ext p q ws h) refl

filter_absurd :
    (p : Webhook → Bool) (ws : List Webhook) → ((w : Webhook) → p w ≡ false) → filter p ws ≡ []
filter_absurd p [] h = refl
filter_absurd p (w ∷ ws) h = rw (h w) (filter_absurd p ws h)

module _ (jar_id : String) (q : Creator → Bool) where
  any-absent :
      (cs : List Creator)
      → any (λ c. str_eq c.jar_id jar_id) cs ≡ false
      → any (λ c. str_eq c.jar_id jar_id && q c) cs ≡ false
  any-absent [] h = refl
  any-absent (c ∷ cs) h = ground (arith, any-absent cs)

  any-none :
      (cs : List Creator)
      → find? (λ c. str_eq c.jar_id jar_id) cs ≡ none
      → any (λ c. str_eq c.jar_id jar_id && q c) cs ≡ false
  any-none [] h = refl
  any-none (c ∷ cs) h = ground (arith, any-none cs)

  any-found :
      (cs : List Creator) (c : Creator)
      → ids_distinct (λ c. c.jar_id) cs ≡ true
      → find? (λ c. str_eq c.jar_id jar_id) cs ≡ some c
      → any (λ c. str_eq c.jar_id jar_id && q c) cs ≡ q c
  any-found [] c h k = cc
  any-found (d ∷ cs) c h k = elim (Bool-cases (str_eq d.jar_id jar_id)) [
    | inl same ↦
        let e : d.jar_id ≡ jar_id = (eq_iff d.jar_id jar_id).0 same in
        let unique : any (λ y. str_eq y.jar_id d.jar_id) cs ≡ false = ground arith in
        let absent = any-absent cs (ap (λ j. any (λ y. str_eq y.jar_id j) cs) (sym e) ∙ unique) in
        ground (arith, same, absent)
    | inr other ↦ ground (arith, any-found cs c)
  ]

module _ (concurrency : ℕ) where
  queue_delivery-jobs :
      (w : Webhook) (q : Queue Webhook)
      → jobs_of concurrency (queue_delivery concurrency w q) ≡ jobs_of concurrency q ++ w ∷ []
  unfolding queue_delivery
  queue_delivery-jobs w q =
      jobs_of-process_queue concurrency (record q { waiting = q.waiting ++ w ∷ [] })
      ∙ sym (append_assoc q.started q.waiting (w ∷ []))

  queue_all-jobs :
      (ws : List Webhook) (q : Queue Webhook)
      → jobs_of concurrency (queue_all concurrency ws q) ≡ jobs_of concurrency q ++ ws
  unfolding queue_all
  queue_all-jobs [] q = sym (append-nil _)
  queue_all-jobs (w ∷ ws) q =
      queue_all-jobs ws (queue_delivery concurrency w q)
      ∙ ap (λ xs. xs ++ ws) (queue_delivery-jobs w q)
      ∙ append_assoc (jobs_of concurrency q) (w ∷ []) ws

  module _ (read : List Webhook → List Webhook) (read-nil : read [] ≡ []) where
    abbrev to : Db → Option Creator → Queue Webhook → Queue Webhook
    to = dispatch_to concurrency read

    dispatch-found :
        (db : Db) (q : Queue Webhook) (c : Creator) (switch : Bool)
        → jobs_of concurrency (
            if switch
            then queue_all concurrency
                (read (filter (λ w. str_eq w.creator_id c.id && w.enabled) db.webhooks))
                q
            else q)
          ≡ jobs_of concurrency q
            ++ read (filter (λ w. (switch && str_eq w.creator_id c.id) && w.enabled) db.webhooks)
    dispatch-found db q c true = queue_all-jobs _ q
    dispatch-found db q c false = sym (
        ap (λ ws. jobs_of concurrency q ++ read ws)
          (filter_absurd (λ w. false) db.webhooks (λ w. refl))
        ∙ ap (λ ws. jobs_of concurrency q ++ ws) read-nil
        ∙ append-nil _)

    -- If the jar ids of the creators are distinct: the dispatch of a tip queues, behind all jobs so far,
    -- one delivery to each webhook that is on and whose creator owns the tip's jar and has webhooks
    -- switched on, in the order in which the database returns them, and no other.
    pub dispatch_webhooks-targets :
        (event : TipEvent) (db : Db) (q : Queue Webhook)
        → ids_distinct (λ c. c.jar_id) db.creators ≡ true
        → (dispatch_webhooks concurrency read event db q).started
            ++ (dispatch_webhooks concurrency read event db q).waiting
          ≡ (q.started ++ q.waiting) ++ read (filter (is_target event db) db.webhooks)
    unfolding dispatch_webhooks
    dispatch_webhooks-targets event db q h =
        elim (Option-cases (find? (λ c. str_eq c.jar_id event.jar_id) db.creators)) [
          | inl absent ↦
              let no_target = filter_absurd (is_target event db) db.webhooks (λ w.
                ap (λ b. b && w.enabled)
                  (any-none event.jar_id (λ c. c.webhook_enabled && str_eq w.creator_id c.id)
                    db.creators absent)) in
              ap (λ o. jobs_of concurrency (to db o q)) absent
              ∙ sym (
                  ap (λ ws. jobs_of concurrency q ++ ws) (ap read no_target ∙ read-nil)
                  ∙ append-nil _)
          | inr (c, found) ↦
              let targets =
                filter-ext (is_target event db)
                  (λ w. (c.webhook_enabled && str_eq w.creator_id c.id) && w.enabled) db.webhooks
                  (λ w.
                    ap (λ b. b && w.enabled)
                      (any-found event.jar_id (λ c. c.webhook_enabled && str_eq w.creator_id c.id)
                        db.creators c h found)) in
              ap (λ o. jobs_of concurrency (to db o q)) found
              ∙ dispatch-found db q c c.webhook_enabled
              ∙ ap (λ ws. jobs_of concurrency q ++ read ws) (sym targets)
        ]
