-- ===== src/World/Reliable.antt =====
-- The operations of a storage that never fails, as equations: with these a program runs by
-- rewriting.
use durable_effect.Prelude.{◌≡◌, is_some, Option}
use durable_effect.Errors.{Key}
use durable_effect.Program.{ok}
use durable_effect.World.{Store, empty_store, World, Env, IsReliable}
use durable_effect.World.Storage.{get, put, put_batch, delete, delete_all, list}

module _ (env : Env) (reliable : IsReliable env) where
  pub get-reliable :
      {A : Type 0} (key : Key) (value : Store → A) (w : World)
      → get key value env w ≡ (ok (value w.store), w)
  unfolding get
  get-reliable key value w = rw reliable

  pub put-reliable :
      (key : Key) (write : Store → Store) (w : World)
      → put key write env w ≡ (ok tt, record w { store = write w.store })
  unfolding put
  put-reliable key write w = rw reliable

  pub put_batch-reliable :
      (write : Store → Store) (w : World)
      → put_batch write env w ≡ (ok tt, record w { store = write w.store })
  unfolding put_batch
  put_batch-reliable write w = rw reliable

  pub delete-reliable :
      {A : Type 0} (key : Key) (value : Store → Option A) (erase : Store → Store) (w : World)
      → delete key value erase env w
        ≡ (ok (is_some (value w.store)), record w { store = erase w.store })
  unfolding delete
  delete-reliable key value erase w = rw reliable

  pub delete_all-reliable :
      (w : World) → delete_all env w ≡ (ok tt, record w { store = empty_store })
  unfolding delete_all
  delete_all-reliable w = rw reliable

  pub list-reliable : (w : World) → list env w ≡ (ok w.store, w)
  unfolding list
  list-reliable w = rw reliable
