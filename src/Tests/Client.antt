-- ===== src/Tests/Client.antt =====
-- The theorems on the license client and on the tools for Windows, at inputs.
use license_checker.Client.{new_result, processing, Extractor, retry}
use license_checker.Client.Retries.{Retried, retry-Retried}
use license_checker.Platform.{Calls, answered, failed}
use license_checker.Client.Answers.{IsAnswer, processing-IsAnswer}
use license_checker.Prelude.Frames.{Ends}
use license_checker.Prelude.{
  ℕ, pos, codes, c_str, length, ◌==◌, ◌≤◌, ◌<◌, Bool, true, false, not, ◌&&◌, List, [], ◌∷◌, ok,
  fault, ◌≡◌, ◌⊎◌, arith, if◌then◌else◌,
}
use license_checker.Tests.Machine.{os, machine, answer, Json}
use license_checker.Tools.Windows.{Windows, terminate_process}
use license_checker.Tools.Windows.Processes.{IsWindows, has_target, lists, terminate_process-ends}

abbrev extractor : Extractor
extractor = record {
  address = codes "http://lic";
  attempt = 60;
  request_license = record {
    uid = codes "1";
    unp = codes "2";
    agent = codes "3";
    host_type = codes "4";
  };
}

processing-IsAnswer_example : Ends IsAnswer (processing os extractor machine new_result)
processing-IsAnswer_example = processing-IsAnswer os extractor machine

-- two processes of one program and one of another, each of which runs until it is in the list of those
-- that were ended
abbrev ended_in : List ℕ → ℕ → Bool
ended_in [] j = false
ended_in (i ∷ ids) j = if i == j then true else ended_in ids j

abbrev runs : List ℕ → ℕ → Bool
runs ids j = not (ended_in ids j)

abbrev may : ℕ → Bool
may j = not (j == 9)

abbrev windows : Windows (List ℕ)
windows = record {
  snapshot = λ ids.
      record { exe_file = codes "vpn"; process_id = 5 }
      ∷ record { exe_file = codes "sh"; process_id = 6 }
      ∷ record { exe_file = codes "vpn"; process_id = 9 }
      ∷ [];
  opens = λ ids j. runs ids j && may j;
  terminate = λ ids j. j ∷ ids;
}

windows-IsWindows : IsWindows windows runs may
windows-IsWindows = record {
  opened = λ ids j i. runs ids j && may j;
  terminated = λ ids i j. ground arith;
}

terminate_process-ends_example :
    ((length (c_str (codes "vpn")) ≤ 19)
      × (b : Bool) × (d : List ℕ) × (terminate_process windows (codes "vpn") [] ≡ ok (b, d))
      × (b ≡ has_target (c_str (codes "vpn")) (λ j. runs [] j && may j) (windows.snapshot []))
      × ((j : ℕ)
          → runs d j
            ≡ (runs [] j && not (lists (c_str (codes "vpn")) (windows.snapshot []) j && may j))))
    ⊎ ((19 < length (c_str (codes "vpn"))) × (terminate_process windows (codes "vpn") [] ≡ fault))
terminate_process-ends_example =
    terminate_process-ends windows runs may windows-IsWindows (codes "vpn") []

abbrev calls : Calls Json
calls =
    failed (pos 12007) (codes "no host") 5
      (failed (pos 12002) (codes "timeout") 61 (answered answer))

retry-Retried_example :
    Retried 60 calls new_result (retry 60 calls new_result).0 (retry 60 calls new_result).1
retry-Retried_example = retry-Retried 60 new_result calls
