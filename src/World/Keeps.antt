-- ===== src/World/Keeps.antt =====
-- A property of the storage that an action keeps, whether it succeeds or fails and whatever the
-- storage does: one rule for each way to build an action.
use durable_effect.Prelude.{ℕ, String, Bool, true, false, Option, if◌then◌else◌}
use durable_effect.Errors.{Error, Key}
use durable_effect.Program.{Result, ok, err}
use durable_effect.World.{
  Store, World, Env, EventBody, Action, pure, handle, raise, asks, catch_error, result_of, ◌>>=◌,
}
use durable_effect.World.Storage.{
  get, put, put_batch, delete, list, schedule, unschedule, now, advance_time, emit_event,
}
use durable_effect.World.Outcomes.{
  Post, Post-pure, Post-raise, Post-asks, Post-get, Post-put, Post-put_batch, Post-delete,
  Post-list, Post-now, Post-schedule, Post-unschedule, Post-emit_event, Post-bind, Post-mono,
  Post-world,
}

pub record Keeps (P : Store → Type 0) {A : Type 0} (m : Action A) : Type 0 where
  pub at :
      (env : Env) (w : World) → P w.store → Post (λ _ w'. P w'.store) (λ _ w'. P w'.store) (m env w)

module _ {P : Store → Type 0} {A : Type 0} where
  pub Keeps-pure : (a : A) → Keeps P (pure a)
  Keeps-pure a = record { at = λ env w h. Post-pure a env w h }

  pub Keeps-raise : (e : Error) → Keeps P (raise {A = A} e)
  Keeps-raise e = record { at = λ env w h. Post-raise e env w h }

  pub Keeps-asks : (f : Env → A) → Keeps P (asks f)
  Keeps-asks f = record { at = λ env w h. Post-asks f env w h }

  pub Keeps-get : (key : Key) (value : Store → A) → Keeps P (get key value)
  Keeps-get key value = record { at = λ env w h. Post-get key value env w h (λ _ _. h) }

  pub Keeps-if : (b : Bool) (m n : Action A) → Keeps P m → Keeps P n → Keeps P (if b then m else n)
  Keeps-if true m n k l = k
  Keeps-if false m n k l = l

  pub Keeps-result_of : (m : Action A) → Keeps P m → Keeps P (result_of m)
  unfolding result_of
  Keeps-result_of m k = record {
    at = λ env w h. record { ends = Post-world (m env w) (k.at env w h) };
  }

  handle-Keeps :
      (r : Result A) (handler : Error → Action A) (env : Env) (w : World)
      → ((e : Error) → Keeps P (handler e))
      → Post (λ _ w'. P w'.store) (λ _ w'. P w'.store) (r, w)
      → Post (λ _ w'. P w'.store) (λ _ w'. P w'.store) (handle r handler env w)
  handle-Keeps (ok a) handler env w k h = record { ends = h.ends }
  handle-Keeps (err e) handler env w k h = (k e).at env w h.ends

  pub Keeps-catch_error :
      (m : Action A) (handler : Error → Action A)
      → Keeps P m
      → ((e : Error) → Keeps P (handler e))
      → Keeps P (catch_error m handler)
  unfolding catch_error
  Keeps-catch_error m handler k l = record {
    at = λ env w h. handle-Keeps (m env w).0 handler env (m env w).1 l (k.at env w h);
  }

module _ {P : Store → Type 0} where
  pub Keeps-put :
      (key : Key) (write : Store → Store)
      → ((s : Store) → P s → P (write s))
      → Keeps P (put key write)
  Keeps-put key write k = record {
    at = λ env w h. Post-put key write env w (k w.store h) (λ _ _. h);
  }

  pub Keeps-put_batch :
      (write : Store → Store) → ((s : Store) → P s → P (write s)) → Keeps P (put_batch write)
  Keeps-put_batch write k = record {
    at = λ env w h. Post-put_batch write env w (k w.store h) (λ _ _. h);
  }

  pub Keeps-delete :
      {A : Type 0} (key : Key) (value : Store → Option A) (erase : Store → Store)
      → ((s : Store) → P s → P (erase s))
      → Keeps P (delete key value erase)
  Keeps-delete key value erase k = record {
    at = λ env w h. Post-delete key value erase env w (k w.store h) (λ _ _. h);
  }

  pub Keeps-list : Keeps P list
  Keeps-list = record { at = λ env w h. Post-list env w h (λ _ _. h) }

  pub Keeps-now : Keeps P now
  Keeps-now = record { at = λ env w h. Post-now env w h }

  pub Keeps-schedule : (time : ℕ) → Keeps P (schedule time)
  Keeps-schedule time = record { at = λ env w h. Post-schedule time env w h }

  pub Keeps-unschedule : Keeps P unschedule
  Keeps-unschedule = record { at = λ env w h. Post-unschedule env w h }

  pub Keeps-advance_time : (ms : ℕ) → Keeps P (advance_time ms)
  unfolding advance_time
  Keeps-advance_time ms = record { at = λ env w h. record { ends = h } }

  pub Keeps-emit_event :
      (name : String) (id : Option String) (body : EventBody) → Keeps P (emit_event name id body)
  Keeps-emit_event name id body = record {
    at = λ env w h. Post-emit_event name id body env w (λ _. h);
  }

module _ {P : Store → Type 0} {A : Type 0} {E : Error → World → Type 0} where
  -- an action whose failure is handed on as a value does not fail
  pub Post-result_of :
      (m : Action A) (env : Env) (w : World)
      → Keeps P m
      → P w.store
      → Post (λ _ w'. P w'.store) E (result_of m env w)
  unfolding result_of
  Post-result_of m env w k h = record { ends = Post-world (m env w) (k.at env w h) }

module _ {P : Store → Type 0} {A B : Type 0} where
  pub Keeps-bind :
      (m : Action A) (f : A → Action B) → Keeps P m → ((a : A) → Keeps P (f a)) → Keeps P (m >>= f)
  Keeps-bind m f k l = record {
    at = λ env w h.
        Post-bind m f env w
          (Post-mono (k.at env w h) (λ a w' h'. (l a).at env w' h') (λ e w' h'. h'));
  }

pub ruleset keeps_rules = (
  Keeps-pure, Keeps-raise, Keeps-asks, Keeps-get, Keeps-if, Keeps-result_of, Keeps-put,
  Keeps-put_batch, Keeps-delete, Keeps-list, Keeps-now, Keeps-schedule, Keeps-unschedule,
  Keeps-advance_time, Keeps-emit_event, Keeps-bind,
)
