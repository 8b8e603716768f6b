-- ===== src/Service/Notices.antt =====
-- nx_service/config_change.cpp and nx_service/itvpn_exec_handler.cpp: which notices are acted on.
use license_checker.Prelude.{
  ℕ, Text, ◌==◌, ◌%◌, ◌+◌, true, not, List, [], ◌∷◌, ◌≡◌, arith, All, length,
}
use license_checker.Service.{Notice, concerns, count_notice, handle_exec_notice}

-- the counter after `n` notices of the file
unfoldable pub count_all : Text → List Notice → ℕ → ℕ
count_all file [] iterations = iterations
count_all file (n ∷ notices) iterations =
    count_all file notices (handle_exec_notice file n iterations).1

count_notice-mod : (k : ℕ) → (count_notice (k % 3)).1 ≡ (k + 1) % 3
unfolding count_notice
count_notice-mod k = ground arith

handle_exec_notice-mod :
    (file : Text) (n : Notice) (k : ℕ)
    → concerns file n ≡ true
    → (handle_exec_notice file n (k % 3)).1 ≡ (k + 1) % 3
unfolding handle_exec_notice
handle_exec_notice-mod file n k h = rw h (count_notice-mod k)

count_all-mod :
    (file : Text) (notices : List Notice) (k : ℕ)
    → All (λ n. concerns file n ≡ true) notices
    → count_all file notices (k % 3) ≡ (k + length notices) % 3
unfolding count_all
count_all-mod file [] k h = ground arith
count_all-mod file (n ∷ notices) k (h, hs) =
    rw (handle_exec_notice-mod file n k h) (ground (arith, count_all-mod file notices (k + 1) hs))

-- Of the notices of the file that is watched, the third, the sixth and so on open no worker, and
-- every other one does.
pub handle_exec_notice-third :
    (file : Text) (notices : List Notice) (n : Notice)
    → All (λ m. concerns file m ≡ true) notices
    → concerns file n ≡ true
    → (handle_exec_notice file n (count_all file notices 0)).0 ≡ not (length notices % 3 == 2)
unfolding handle_exec_notice count_notice
handle_exec_notice-third file notices n hs h =
    rw (h, count_all-mod file notices 0 hs) (ground arith)
