-- ===== src/Docker/Confinement.antt =====
-- The commands of Create and what they leave.
use restoreguard.Common.{
  ℕ, zero, suc, ◌≡◌, refl, Bool, true, false, ◌&&◌, not, ◌∷◌, ◌⊎◌, inl, inr, str_eq, eq_iff, ◌≢◌,
  if_either, if_cases, arith,
}
use restoreguard.Worker.World.{Sandbox}
use restoreguard.Docker.Admission.{IsSound, is_valid-IsSound, IsSound-is_valid}
use restoreguard.Docker.Executor.{
  Log, create_volume, run_container, create_network, is_ready, show_logs, contains, ready_text,
  run_command, SandboxSpec, Executor, CreateError, not_allowlisted, invalid_spec, no_network,
  no_volume, no_container, not_ready, clean_up, poll, network_of, volume_of, container_of,
  remove_container, remove_network, remove_volume, sandbox_of, await_ready, create_container,
  create_storage, create_valid, create, is_valid,
}

module _ (e : Executor) (spec : SandboxSpec) where
  -- The last three commands removed the container, the network and the volume.
  abbrev IsCleaned : Log → Type 0
  IsCleaned log =
      (before : Log) × (log
        ≡ remove_volume (volume_of e spec)
          ∷ remove_network (network_of e spec)
          ∷ remove_container (container_of e spec)
          ∷ before)

  -- The container has logged the end of its initialization, and then accepted a connection.
  abbrev IsReady : Log → Type 0
  IsReady log =
      (before : Log) × (log ≡ is_ready e spec ∷ show_logs e spec ∷ before)
      × (contains (e.runner before (show_logs e spec)).1 ready_text ≡ true)
      × ((e.runner (show_logs e spec ∷ before) (is_ready e spec)).0 ≡ false)

  -- The image is the allowed one and the specification is sound.
  abbrev pub IsAdmitted : Type 0
  IsAdmitted = (spec.image ≡ e.allowed_image) × IsSound spec

  -- The outcome of Create against the log before it.
  abbrev pub Leaves : Log → (CreateError ⊎ Sandbox) × Log → Type 0
  Leaves log (inl not_allowlisted, after) = (spec.image ≢ e.allowed_image) × (after ≡ log)
  Leaves log (inl invalid_spec, after) =
      (spec.image ≡ e.allowed_image) × (IsSound spec → ⊥) × (after ≡ log)
  Leaves log (inl no_network, after) = IsAdmitted × (after ≡ create_network e spec ∷ log)
  Leaves log (inl no_volume, after) = IsAdmitted × IsCleaned after
  Leaves log (inl no_container, after) = IsAdmitted × IsCleaned after
  Leaves log (inl not_ready, after) = IsAdmitted × IsCleaned after
  Leaves log (inr s, after) = IsAdmitted × (s ≡ sandbox_of e spec) × IsReady after

  clean_up-IsCleaned : (log : Log) → IsCleaned (clean_up e spec log)
  unfolding clean_up
  clean_up-IsCleaned log = (log, refl)

  -- A turn of the loop that found the sandbox ready.
  abbrev IsPolled : Bool × Log → Type 0
  IsPolled (true, log) = IsReady log
  IsPolled (false, log) = Unit {0}

  poll-IsPolled : (log : Log) → IsPolled (poll e spec log)
  unfolding poll
  poll-IsPolled log =
      if_cases IsPolled
        (not (e.runner log (show_logs e spec)).0
          && contains (e.runner log (show_logs e spec)).1 ready_text)
        (λ h.
          accepted (e.runner (show_logs e spec ∷ log) (is_ready e spec)).0
            λ k. (log, refl, ground (arith, h), k))
        (λ _. tt)
    where
      accepted : (b : Bool) {l : Log} → (b ≡ false → IsReady l) → IsPolled (not b, l)
      accepted true h = tt
      accepted false h = h refl

  await_ready-Leaves :
      (start : Log) (sleeps : ℕ) (turn : Bool × Log)
      → IsAdmitted
      → IsPolled turn
      → Leaves start (await_ready e spec sleeps turn)
  unfolding await_ready
  await_ready-Leaves start sleeps (true, log) a h = (a, refl, h)
  await_ready-Leaves start zero (false, log) a h = (a, clean_up-IsCleaned log)
  await_ready-Leaves start (suc n) (false, log) a h =
      await_ready-Leaves start n (poll e spec log) a (poll-IsPolled log)

  create_container-Leaves :
      (start : Log) (sleeps : ℕ) (log : Log)
      → IsAdmitted
      → Leaves start (create_container e spec sleeps log)
  unfolding create_container run_command
  create_container-Leaves start sleeps log a =
      let next = run_container e spec ∷ log in
      if_either (Leaves start) (e.runner log (run_container e spec)).0
        {x = (inl no_container, clean_up e spec next)} (a, clean_up-IsCleaned next)
        (await_ready-Leaves start sleeps (poll e spec next) a (poll-IsPolled next))

  create_storage-Leaves :
      (start : Log) (sleeps : ℕ) (log : Log)
      → IsAdmitted
      → Leaves start (create_storage e spec sleeps log)
  unfolding create_storage run_command
  create_storage-Leaves start sleeps log a =
      let next = create_volume e spec ∷ log in
      if_either (Leaves start) (e.runner log (create_volume e spec)).0
        {x = (inl no_volume, clean_up e spec next)} (a, clean_up-IsCleaned next)
        (create_container-Leaves start sleeps next a)

  -- Create refuses an image exactly where it is not the allowed one, and a specification exactly where
  -- it is not sound, that is, has no identifier of letters, digits, dashes and underscores, no or more
  -- than four processors, or less than 128 MiB or more than 8 GiB of memory; it runs no command then.
  -- It runs only its own command when the network cannot be created; after every later failure its
  -- last commands try to remove the container, the network and the volume; and it returns a sandbox
  -- with the names that it made, only after the container logged the end of its initialization and
  -- then accepted a connection.
  pub create-Leaves : (sleeps : ℕ) (log : Log) → Leaves log (create e spec sleeps log)
  unfolding create create_valid run_command
  create-Leaves sleeps log =
      if_cases (Leaves log) (not (str_eq spec.image e.allowed_image)) (λ n. (image_differs n, refl))
        (λ y.
          let image : spec.image ≡ e.allowed_image = image_same y in
          if_cases (Leaves log) (not (is_valid spec))
            (λ n. (image, IsSound-is_valid spec (ground (arith, n)), refl))
            (λ v.
              let admitted : IsAdmitted = (image, is_valid-IsSound spec (ground (arith, v))) in
              if_either (Leaves log) (e.runner log (create_network e spec)).0 (admitted, refl)
                (create_storage-Leaves log sleeps (create_network e spec ∷ log) admitted)))
    where
      image_differs : not (str_eq spec.image e.allowed_image) ≡ true → spec.image ≢ e.allowed_image
      image_differs n same = ground (arith, n, eq_iff spec.image e.allowed_image, same)

      image_same : not (str_eq spec.image e.allowed_image) ≡ false → spec.image ≡ e.allowed_image
      image_same y = ground (arith, y, eq_iff spec.image e.allowed_image)
