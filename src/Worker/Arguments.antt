-- ===== src/Worker/Arguments.antt =====
-- `buildVmctlArgs` of internal/worker/manager.go. The order in which Go ranges over a map, and
-- `Time.Format` with the layout of the code, are parameters.
use victoriametrics_data_mig.Prelude.{
  Bool, List, [], ◌∷◌, ◌++◌, map, Text, codes, is_empty, join, if◌then◌else◌, Map, ℤ, show_int,
  Float,
}
use victoriametrics_data_mig.Scheduler.Calendar.{Time}
use victoriametrics_data_mig.Types.{Task}
use victoriametrics_data_mig.Config.{Config, BasicAuthConfig, int_below}

abbrev option_text : Text → Text → List Text
option_text flag value = if is_empty value then [] else (flag ++ value) ∷ []

abbrev option_flag : Bool → Text → List Text
option_flag on flag = if on then flag ∷ [] else []

-- `if n > 0`.
abbrev option_positive : Text → ℤ → List Text
option_positive flag n = if int_below n 1 then [] else (flag ++ show_int n) ∷ []

abbrev option_auth : Text → Text → BasicAuthConfig → List Text
option_auth user password auth =
    if is_empty auth.username
    then []
    else (user ++ auth.username) ∷ (password ++ auth.password) ∷ []

module _ (F : Float) (range : Map Text → List (Text × Text)) (format : Time → Text) where
  abbrev option_headers : Text → Map Text → List Text
  option_headers flag [] = []
  option_headers flag (h ∷ hs) =
      (flag ++ join (codes "^^") (map (λ e. e.0 ++ (codes ":" ++ e.1)) (range (h ∷ hs)))) ∷ []

  unfoldable pub build_vmctl_args : Config F → Task → List Text
  build_vmctl_args cfg task =
      let source = cfg.source in
      let destination = cfg.destination in
      let vmctl = cfg.workers.vmctl in
      (codes "vm-native"
        ∷ codes "-s"
        ∷ (codes "--vm-native-src-addr=" ++ source.vmselect_url)
        ∷ (codes "--vm-native-dst-addr=" ++ destination.vminsert_url)
        ∷ (codes "--vm-native-filter-match=" ++ task.selector)
        ∷ (codes "--vm-native-filter-time-start=" ++ format task.time_start)
        ∷ (codes "--vm-native-filter-time-end=" ++ format task.time_end)
        ∷ (codes "--vm-concurrency=" ++ show_int vmctl.concurrency)
        ∷ codes "--vm-native-disable-per-metric-migration"
        ∷ [])
      ++ (option_text (codes "--vm-native-src-bearer-token=") source.bearer_token
          ++ (option_auth (codes "--vm-native-src-user=") (codes "--vm-native-src-password=")
                source.basic_auth
              ++ (option_headers (codes "--vm-native-src-headers=") source.headers
                  ++ (option_flag source.tls.insecure_skip_verify
                        (codes "--vm-native-src-insecure-skip-verify")
                      ++ (option_text (codes "--vm-native-src-ca-file=") source.tls.ca_file
                          ++ (option_text (codes "--vm-native-src-cert-file=") source.tls.cert_file
                              ++ (option_text (codes "--vm-native-src-key-file=")
                                    source.tls.key_file
                                  ++ (option_text (codes "--vm-native-dst-bearer-token=")
                                        destination.bearer_token
                                      ++ (option_auth (codes "--vm-native-dst-user=")
                                            (codes "--vm-native-dst-password=")
                                            destination.basic_auth
                                          ++ (option_headers (codes "--vm-native-dst-headers=")
                                                destination.headers
                                              ++ (option_flag destination.tls.insecure_skip_verify
                                                    (codes "--vm-native-dst-insecure-skip-verify")
                                                  ++ (option_positive (codes "--vm-rate-limit=")
                                                        vmctl.rate_limit
                                                      ++ (option_flag vmctl.disable_binary_protocol
                                                            (codes
                                                            "--vm-native-disable-binary-protocol")
                                                          ++ (option_flag
                                                            vmctl.disable_http_keep_alive
                                                            (codes
                                                            "--vm-native-disable-http-keep-alive")
                                                            ++ (option_positive
                                                            (codes "--vm-native-backoff-retries=")
                                                            vmctl.backoff_retries
                                                            ++ map
                                                            (λ label.
                                                            codes "--vm-extra-label=" ++ label)
                                                            vmctl.extra_labels)))))))))))))))
