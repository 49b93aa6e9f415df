-- ===== src/Healing/Summary.antt =====
-- src/self_healthy_kafka/healing/recovery_summary.py.
use self_healing_kafka_syste.Base.{
  ℕ, not, List, [], ◌∷◌, ◌++◌, ltb, ◌==◌, if◌then◌else◌, length, is_empty,
}
use self_healing_kafka_syste.Base.Text.{Text}
use self_healing_kafka_syste.Base.Decimal.{print_decimal}
use self_healing_kafka_syste.Effect.Exn.{text}

-- The dictionary `step_counts`.
pub record StepCounts : Type 0 where
  pub task_restarts : ℕ
  pub connector_restarts : ℕ
  pub recreate_timeouts : ℕ
  pub recreate_with_offset : ℕ
  pub recreate_without_offset : ℕ

-- `", ".join(parts)`.
unfoldable pub join_comma : List Text → Text
join_comma [] = []
join_comma (s ∷ []) = s
join_comma (s ∷ t ∷ ts) = s ++ (text ", " ++ join_comma (t ∷ ts))

-- `parts[:-1]`.
unfoldable pub drop_last : List Text → List Text
drop_last [] = []
drop_last (s ∷ []) = []
drop_last (s ∷ t ∷ ts) = s ∷ drop_last (t ∷ ts)

-- `if n: attempts.append(f"{before}{n}{after}")`.
abbrev attempt : ℕ → Text → Text → List Text → List Text
attempt n before after later =
    if n == 0 then later else (before ++ (print_decimal n ++ after)) ∷ later

unfoldable pub attempts : StepCounts → List Text
attempts c = attempt c.task_restarts (text "khởi động lại task ") (text " lần") (
    attempt c.connector_restarts (text "khởi động lại connector ") (text " lần") (
      attempt c.recreate_with_offset (text "tạo lại connector với offset cũ ") (text " lần") (
        attempt c.recreate_timeouts (text "gặp timeout khi tạo lại với offset ") (text " lần") [])))

-- `f"Đã trải qua {', '.join(parts)}; "`.
abbrev passed : List Text → Text
passed parts = text "Đã trải qua " ++ (join_comma parts ++ text "; ")

abbrev no_automated_step : Text
no_automated_step = text "NO_AUTOMATED_STEP"

unfoldable pub format_healing_steps : StepCounts → Text → Text
unfolding attempts join_comma drop_last
format_healing_steps c final_name =
    let parts = attempts c in
    if not (c.recreate_without_offset == 0)
    then (if is_empty parts then [] else passed parts)
      ++ (text "cuối cùng tạo connector mới "
          ++ (final_name ++ text " không sử dụng offset cũ và đã hoạt động ổn định."))
    else if not (c.recreate_with_offset == 0)
    then (if ltb 1 (length parts) then passed (drop_last parts) else [])
      ++ (text "phục hồi bằng connector mới " ++ (final_name ++ text " với offset cũ."))
    else if not (c.connector_restarts == 0)
    then text "Đã "
      ++ (join_comma parts ++ text "; hệ thống phục hồi tại bước khởi động lại connector.")
    else if not (c.task_restarts == 0)
    then text "Đã khởi động lại task "
      ++ (print_decimal c.task_restarts
          ++ text " lần; hệ thống phục hồi tại bước khởi động lại task.")
    else text "NO_AUTOMATED_STEP"
