-- ===== src/Cloud/Sync/Steps.antt =====
-- src/cloud/sync-engine.ts: the steps that a turn of the drain loop is made of, for any condition
-- on the loop's variables.
use dbdock.Base.{ℕ, String, Option, none, some}
use dbdock.Base.Triple.{Triple, Triple-pure, Triple-bind}
use dbdock.Cloud.Sync.{SyncClient, Loop, read_loop, write_loop, learn_revision, remote_call}

module _ {W Data : Type 0} {P R : Loop W Data → Type 0} where
  -- What holds of the variables read, and of those left.
  pub Triple-seen : Triple P read_loop (λ x _. P x) R
  unfolding read_loop
  Triple-seen = record { run = λ s h. h }

  pub Triple-looked : Triple P read_loop (λ _ l'. P l') R
  unfolding read_loop
  Triple-looked = record { run = λ s h. h }

  pub Triple-learn :
      (client : SyncClient W Data) (project_id : String) (known : Option ℕ)
      → Triple P (remote_call (client.get_state project_id)) (λ _ l'. P l') R
      → Triple P (learn_revision client project_id known) (λ _ l'. P l') R
  unfolding learn_revision
  Triple-learn client project_id (some r) h = Triple-pure r (λ s h. h)
  Triple-learn client project_id none h =
      Triple-bind (λ _ l'. P l') _ _ h
        (λ remote. Triple-bind (λ _ l'. P l') _ _ Triple-looked (λ x. Triple-pure _ (λ s h. h)))

module _ {W Data : Type 0} where
  pub Triple-write :
      {Q R : Loop W Data → Type 0} {F : Type 0} (x : Loop W Data)
      → (F → Q x)
      → Triple (λ _. F) (write_loop x) (λ _ l'. Q l') R
  unfolding write_loop
  Triple-write x h = record { run = λ s f. h f }
