-- ===== src/World/Outcomes.antt =====
-- How an action ends. `Post Q E` says that a success meets `Q` and a failure meets `E`, each with
-- the world that is left; there is one rule for each way to build an action.
use durable_effect.Prelude.{
  ℕ, String, List, ◌≡◌, refl, Bool, true, false, Option, none, some, is_some, Bool-cases, inl, inr,
  arith, if◌then◌else◌,
}
use durable_effect.Errors.{Error, Key, StorageOp}
use durable_effect.Program.{Result, ok, err}
use durable_effect.World.{
  Store, empty_store, World, Env, ErrorConfig, IsReliable, Action, EventBody, Event, ◌>>=◌, pure,
  raise, asks, handle, catch_error,
}
use durable_effect.World.Storage.{
  get, put, put_batch, delete, delete_all, list, now, schedule, unschedule, emit_event, should_fail,
  fails_all,
}

-- only a storage with an error configuration fails
should_fail-faulty :
    (config : Option ErrorConfig) (op : StorageOp) (key : Key)
    → should_fail config op key ≡ true
    → ¬ (config ≡ none)
should_fail-faulty none op key e = cc
should_fail-faulty (some c) op key e = λ h. cc

fails_all-faulty : (config : Option ErrorConfig) → fails_all config ≡ true → ¬ (config ≡ none)
fails_all-faulty none e = cc
fails_all-faulty (some c) e = λ h. cc

-- a failure of the storage, with nothing changed
abbrev pub Unchanged : Env → World → Error → World → Type 0
Unchanged env w e w' = (w' ≡ w) × ¬ IsReliable env

abbrev pub Ends :
    {A : Type 0} → (A → World → Type 0) → (Error → World → Type 0) → Result A × World → Type 0
Ends Q E (ok a, w) = Q a w
Ends Q E (err e, w) = E e w

pub record Post {A : Type 0} (Q : A → World → Type 0) (E : Error → World → Type 0)
    (r : Result A × World) : Type 0 where
  pub ends : Ends Q E r

module _ {A : Type 0} {Q : A → World → Type 0} {E : Error → World → Type 0} where
  pub Post-pure : (a : A) (env : Env) (w : World) → Q a w → Post Q E (pure a env w)
  Post-pure a env w h = record { ends = h }

  pub Post-raise : (e : Error) (env : Env) (w : World) → E e w → Post Q E (raise e env w)
  Post-raise e env w h = record { ends = h }

  Post-ok_at : (r : Result A) (w : World) (a : A) → Post Q E (r, w) → r ≡ ok a → Q a w
  Post-ok_at (ok b) w a h e = ground (arith, h.ends)
  Post-ok_at (err b) w a h e = cc

  Post-err_at : (r : Result A) (w : World) (x : Error) → Post Q E (r, w) → r ≡ err x → E x w
  Post-err_at (ok b) w x h e = cc
  Post-err_at (err b) w x h e = ground (arith, h.ends)

  -- what a success, or a failure, has left
  pub Post-ok : (r : Result A × World) (a : A) → Post Q E r → r.0 ≡ ok a → Q a r.1
  Post-ok r a h e = Post-ok_at r.0 r.1 a h e

  pub Post-err : (r : Result A × World) (x : Error) → Post Q E r → r.0 ≡ err x → E x r.1
  Post-err r x h e = Post-err_at r.0 r.1 x h e

  -- a success with its value and its world
  pub Post-known :
      (r : Result A × World) → Post Q E r → Post (λ a w'. Q a w' × (r.0 ≡ ok a) × (r.1 ≡ w')) E r
  Post-known (ok a, w) h = record { ends = (h.ends, refl, refl) }
  Post-known (err e, w) h = record { ends = h.ends }

  pub Post-if :
      (b : Bool) (m n : Action A) (env : Env) (w : World)
      → (b ≡ true → Post Q E (m env w))
      → (b ≡ false → Post Q E (n env w))
      → Post Q E ((if b then m else n) env w)
  Post-if true m n env w h k = h refl
  Post-if false m n env w h k = k refl

  pub Post-get :
      (key : Key) (value : Store → A) (env : Env) (w : World)
      → Q (value w.store) w
      → ((e : Error) → ¬ IsReliable env → E e w)
      → Post Q E (get key value env w)
  unfolding get
  Post-get key value env w h k =
      elim (Bool-cases (should_fail env.error_config StorageOp.get key)) [
        | inl e ↦ rw e (record { ends = k _ (should_fail-faulty _ _ _ e) })
        | inr e ↦ rw e (record { ends = h })
      ]

module _ {A : Type 0} {P : World → Type 0} where
  Post-world_at : (r : Result A) (w : World) → Post (λ _ w'. P w') (λ _ w'. P w') (r, w) → P w
  Post-world_at (ok a) w h = h.ends
  Post-world_at (err e) w h = h.ends

  -- what holds of the world that is left, however the action ends
  pub Post-world : (r : Result A × World) → Post (λ _ w'. P w') (λ _ w'. P w') r → P r.1
  Post-world r h = Post-world_at r.0 r.1 h

module _ {A : Type 0} {Q Q' : A → World → Type 0} {E E' : Error → World → Type 0} where
  Post-mono_at :
      (r : Result A) (w : World)
      → Post Q E (r, w)
      → ((a : A) (w' : World) → Q a w' → Q' a w')
      → ((e : Error) (w' : World) → E e w' → E' e w')
      → Post Q' E' (r, w)
  Post-mono_at (ok a) w h f g = record { ends = f a w h.ends }
  Post-mono_at (err e) w h f g = record { ends = g e w h.ends }

  pub Post-mono :
      {r : Result A × World}
      → Post Q E r
      → ((a : A) (w' : World) → Q a w' → Q' a w')
      → ((e : Error) (w' : World) → E e w' → E' e w')
      → Post Q' E' r
  Post-mono {r} h f g = Post-mono_at r.0 r.1 h f g

module _ {Q : ℕ → World → Type 0} {E : Error → World → Type 0} where
  pub Post-now : (env : Env) (w : World) → Q w.current_time w → Post Q E (now env w)
  unfolding now
  Post-now env w h = record { ends = h }

module _ {A : Type 0} {Q : A → World → Type 0} {E : Error → World → Type 0} where
  pub Post-asks : (f : Env → A) (env : Env) (w : World) → Q (f env) w → Post Q E (asks f env w)
  unfolding asks
  Post-asks f env w h = record { ends = h }

module _ {Q : Unit {0} → World → Type 0} {E : Error → World → Type 0} where
  pub Post-put :
      (key : Key) (write : Store → Store) (env : Env) (w : World)
      → Q tt (record w { store = write w.store })
      → ((e : Error) → ¬ IsReliable env → E e w)
      → Post Q E (put key write env w)
  unfolding put
  Post-put key write env w h k =
      elim (Bool-cases (should_fail env.error_config StorageOp.put key)) [
        | inl e ↦ rw e (record { ends = k _ (should_fail-faulty _ _ _ e) })
        | inr e ↦ rw e (record { ends = h })
      ]

  pub Post-put_batch :
      (write : Store → Store) (env : Env) (w : World)
      → Q tt (record w { store = write w.store })
      → ((e : Error) → ¬ IsReliable env → E e w)
      → Post Q E (put_batch write env w)
  unfolding put_batch
  Post-put_batch write env w h k = elim (Bool-cases (fails_all env.error_config)) [
    | inl e ↦ rw e (record { ends = k _ (fails_all-faulty _ e) })
    | inr e ↦ rw e (record { ends = h })
  ]

  pub Post-delete_all :
      (env : Env) (w : World)
      → Q tt (record w { store = empty_store })
      → ((e : Error) → ¬ IsReliable env → E e w)
      → Post Q E (delete_all env w)
  unfolding delete_all
  Post-delete_all env w h k = elim (Bool-cases (fails_all env.error_config)) [
    | inl e ↦ rw e (record { ends = k _ (fails_all-faulty _ e) })
    | inr e ↦ rw e (record { ends = h })
  ]

  pub Post-schedule :
      (time : ℕ) (env : Env) (w : World)
      → Q tt (record w { scheduled_time = some time })
      → Post Q E (schedule time env w)
  unfolding schedule
  Post-schedule time env w h = record { ends = h }

  pub Post-unschedule :
      (env : Env) (w : World)
      → Q tt (record w { scheduled_time = none })
      → Post Q E (unschedule env w)
  unfolding unschedule
  Post-unschedule env w h = record { ends = h }

  -- an event changes nothing but the tracker's list
  pub Post-emit_event :
      (name : String) (id : Option String) (body : EventBody) (env : Env) (w : World)
      → ((events : List Event) → Q tt (record w { events = events }))
      → Post Q E (emit_event name id body env w)
  unfolding emit_event
  Post-emit_event name id body env w h = record { ends = h _ }

module _ {Q : Store → World → Type 0} {E : Error → World → Type 0} where
  pub Post-list :
      (env : Env) (w : World)
      → Q w.store w
      → ((e : Error) → ¬ IsReliable env → E e w)
      → Post Q E (list env w)
  unfolding list
  Post-list env w h k = elim (Bool-cases (fails_all env.error_config)) [
    | inl e ↦ rw e (record { ends = k _ (fails_all-faulty _ e) })
    | inr e ↦ rw e (record { ends = h })
  ]

module _ {Q : Bool → World → Type 0} {E : Error → World → Type 0} where
  pub Post-delete :
      {A : Type 0} (key : Key) (value : Store → Option A) (erase : Store → Store) (env : Env)
      (w : World)
      → Q (is_some (value w.store)) (record w { store = erase w.store })
      → ((e : Error) → ¬ IsReliable env → E e w)
      → Post Q E (delete key value erase env w)
  unfolding delete
  Post-delete key value erase env w h k =
      elim (Bool-cases (should_fail env.error_config StorageOp.delete key)) [
        | inl e ↦ rw e (record { ends = k _ (should_fail-faulty _ _ _ e) })
        | inr e ↦ rw e (record { ends = h })
      ]

module _ {A B : Type 0} {Q : B → World → Type 0} {E : Error → World → Type 0} where
  Ends-bind :
      (f : A → Action B) (env : Env) (r : Result A) (w : World)
      → Ends (λ a w'. Post Q E (f a env w')) E (r, w)
      → Post Q E (((λ env' w'. (r, w')) >>= f) env w)
  unfolding ◌>>=◌
  Ends-bind f env (ok a) w h = h
  Ends-bind f env (err e) w h = record { ends = h }

  pub Post-bind :
      (m : Action A) (f : A → Action B) (env : Env) (w : World)
      → Post (λ a w'. Post Q E (f a env w')) E (m env w)
      → Post Q E ((m >>= f) env w)
  unfolding ◌>>=◌
  Post-bind m f env w h = Ends-bind f env (m env w).0 (m env w).1 h.ends

  -- a call whose outcome is known
  pub Post-then :
      (m : Action A) (f : A → Action B) (env : Env) (w w' : World) (a : A)
      → m env w ≡ (ok a, w')
      → Post Q E (f a env w')
      → Post Q E ((m >>= f) env w)
  unfolding ◌>>=◌
  Post-then m f env w w' a e h = rw e h

module _ {A : Type 0} {Q : A → World → Type 0} {E E' : Error → World → Type 0} where
  Ends-catch :
      (r : Result A) (handler : Error → Action A) (env : Env) (w : World)
      → Ends Q E (r, w)
      → ((e : Error) (w' : World) → E e w' → Post Q E' (handler e env w'))
      → Post Q E' (handle r handler env w)
  Ends-catch (ok a) handler env w h k = record { ends = h }
  Ends-catch (err e) handler env w h k = k e w h

  pub Post-catch :
      (m : Action A) (handler : Error → Action A) (env : Env) (w : World)
      → Post Q E (m env w)
      → ((e : Error) (w' : World) → E e w' → Post Q E' (handler e env w'))
      → Post Q E' (catch_error m handler env w)
  unfolding catch_error
  Post-catch m handler env w h k = Ends-catch (m env w).0 handler env (m env w).1 h.ends k
