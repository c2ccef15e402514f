-- ===== src/Worker/Deploy/Agreement.antt =====
-- The workers that internal/worker/manager.go deploys are those that it looks for.
use victoriametrics_data_mig.Prelude.{
  ℕ, ◌%◌, ◌^◌, ◌≡◌, ◌<◌, refl, inl, inr, [], ◌∷◌, ◌++◌, map, Text, codes, join, Float, pos,
  show_int, arith, Bool-cases, ltb, ap, ◌∙◌, sym, Map,
}
use victoriametrics_data_mig.Config.{Config, int_below}
use victoriametrics_data_mig.Worker.Deploy.{to_int32, grpc_port, label_selector, build_deployment}

-- The text of a label selector that asks for these labels.
abbrev pub selector_text : Map Text → Text
selector_text m = join (codes ",") (map (λ ((k, v) : Text × Text). k ++ (codes "=" ++ v)) m)

pub to_int32_small : (n : ℕ) → n < 2 ^ 31 → to_int32 (pos n) ≡ pos n
unfolding to_int32
to_int32_small n h =
    let same : n % 2 ^ 32 ≡ n = omega arith in
    elim (Bool-cases (ltb n (2 ^ 31))) [
      | inl small ↦ rw (same, small) refl
      | inr large ↦ absurd (ground arith)
    ]

to_int32_grpc_port :
    {F : Float} (cfg : Config F) (port : ℕ)
    → cfg.workers.grpc_port ≡ pos port
    → port < 2 ^ 31
    → to_int32 (grpc_port cfg) ≡ grpc_port cfg
unfolding grpc_port
to_int32_grpc_port cfg port e h = elim (Bool-cases (int_below cfg.workers.grpc_port 1)) [
  | inl unset ↦ rw unset (to_int32_small 9091 (omega arith))
  | inr given ↦ rw (given, e) (to_int32_small port h)
]

module _ (Quantity : Type 0) (must_parse : Text → Quantity) (F : Float) where
  -- The pods of the Deployment carry the labels that its own selector asks for and that the
  -- coordinator lists the workers by. With a configured port below 2 ^ 31, they listen on the port
  -- that the coordinator dials, which their container declares; with a number of workers below 2 ^ 31,
  -- there are as many of them as configured.
  pub build_deployment-agrees :
      (migration_id : Text) (cfg : Config F) (port count : ℕ)
      → cfg.workers.grpc_port ≡ pos port
      → port < 2 ^ 31
      → cfg.workers.count ≡ pos count
      → count < 2 ^ 31
      → let d = build_deployment Quantity must_parse F migration_id cfg in
        (d.match_labels ≡ d.template_labels)
        × (label_selector migration_id ≡ selector_text d.template_labels)
        × (d.container.container_port ≡ grpc_port cfg)
        × (d.container.args
            ≡ codes "worker"
              ∷ (codes "--port=" ++ show_int (grpc_port cfg))
              ∷ (codes "--vmctl-path=" ++ cfg.workers.pod.vmctl_path)
              ∷ [])
        × (d.replicas ≡ cfg.workers.count)
  unfolding build_deployment label_selector grpc_port
  build_deployment-agrees migration_id cfg port count e h f k =
      let small = to_int32_grpc_port cfg port e h in
      (refl, refl, small, rw small refl, ap to_int32 f ∙ to_int32_small count k ∙ sym f)
