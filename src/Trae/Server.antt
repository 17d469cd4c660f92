-- ===== src/Trae/Server.antt =====
-- The API server that a pass asks, as a parameter: what it answers, and the view that its state
-- gives. `IsLawful` is what a pass relies on when nothing fails: an object is there under its own key and is read,
-- one that is not there is reported as not found; a Create of a missing object and an Update of one
-- that is there take effect; a status update leaves the objects alone and gives the cluster back.
use work_script.Prelude.{◌≡◌, true, none, some}
use work_script.Kube.{NamespacedName, ApiError}
use work_script.Effects.Server.{Server}
use work_script.Trae.Types.{HadoopCluster}
use work_script.Trae.Program.{
  Kind, Object, Answer, key_of, ok, err, get, create, update, update_status,
}
use work_script.Trae.Store.{View, put}

pub record ApiServer (W : Type 0) : Type 0 where
  pub answer : Server Answer W
  pub view : W → View

pub record IsLawful {W : Type 0} (s : ApiServer W) : Type 0 where
  pub view-key :
      (k : Kind) (key : NamespacedName) (w : W) (o : Object k)
      → s.view w k key ≡ some o
      → key_of k o ≡ key
  pub get-found :
      (k : Kind) (key : NamespacedName) (w : W) (o : Object k)
      → s.view w k key ≡ some o
      → (s.answer (get k key) w).0 ≡ ok o
  pub get-missing :
      (k : Kind) (key : NamespacedName) (w : W)
      → s.view w k key ≡ none
      → (e : ApiError) × (e.is_not_found ≡ true) × ((s.answer (get k key) w).0 ≡ err e)
  pub get-view :
      (k : Kind) (key : NamespacedName) (w : W) → s.view (s.answer (get k key) w).1 ≡ s.view w
  pub create-missing :
      (k : Kind) (o : Object k) (w : W)
      → s.view w k (key_of k o) ≡ none
      → ((s.answer (create k o) w).0 ≡ ok tt)
        × (s.view (s.answer (create k o) w).1 ≡ put k (key_of k o) o (s.view w))
  pub update-found :
      (k : Kind) (o old : Object k) (w : W)
      → s.view w k (key_of k o) ≡ some old
      → ((s.answer (update k o) w).0 ≡ ok tt)
        × (s.view (s.answer (update k o) w).1 ≡ put k (key_of k o) o (s.view w))
  pub status-kept :
      (c : HadoopCluster) (w : W)
      → ((s.answer (update_status c) w).0 ≡ ok c)
        × (s.view (s.answer (update_status c) w).1 ≡ s.view w)
