-- ===== src/Timeline/Rendering.antt =====
-- crashsafe/observability.py: `format_timeline` and its helpers.
-- `wrap` is `textwrap.wrap(content, width=..., subsequent_indent="  ")`, `terminal_width` the columns
-- that `shutil.get_terminal_size` answers. A line is a text; the result joins them by newlines.
use Prim.Native.String.{◌++◌ as str_append, count, len, slice, find}
use crashsafe.Prelude.{
  ℕ, zero, suc, ◌+◌, ◌-◌, ◌/◌, ◌%◌, String, Option, none, some, List, [], ◌∷◌, ◌++◌, ltb, leb,
  str_eq, if◌then◌else◌, ℤ, pos, negsuc, decimal, signed_decimal,
}
use crashsafe.Models.{
  WorkflowRunStatus, EventType, workflow_run_created, step_attempt_started, step_retry_scheduled,
  step_completed, step_failed, workflow_run_completed, workflow_run_failed,
}
use crashsafe.Models.Timeline.{TimelineEntry, TimelineSummary, WorkflowRunTimeline}

infixr 60 ◌&◌
abbrev ◌&◌ : String → String → String
s & t = str_append s t

-- `text * times`
unfoldable pub repeat : ℕ → String → String
repeat zero text = ""
repeat (suc times) text = text & repeat times text

-- `f"{text:<{width}}"` and `f"{text:>{width}}"`
abbrev pub left : ℕ → String → String
left width text = text & repeat (width - count text) " "

abbrev pub right : ℕ → String → String
right width text = repeat (width - count text) " " & text

unfoldable pub box_title : String → ℕ → String
box_title title width =
    let label = "─ " & title & " " in "╭" & label & repeat (width - count label - 2) "─" & "╮"

unfoldable pub box_separator : ℕ → String
box_separator width = "├" & repeat (width - 2) "─" & "┤"

unfoldable pub box_end : ℕ → String
box_end width = "╰" & repeat (width - 2) "─" & "╯"

unfoldable pub box_line : ℕ → String → String
box_line width part = "│ " & left (width - 4) part & " │"

abbrev pub box_lines : ℕ → List String → List String
box_lines width [] = []
box_lines width (part ∷ parts) = box_line width part ∷ box_lines width parts

-- `wrapped or [""]`
abbrev pub or_blank : List String → List String
or_blank [] = "" ∷ []
or_blank (part ∷ parts) = part ∷ parts

unfoldable pub event_display : EventType → String × String
event_display workflow_run_created = ("◇", "RUN CREATED")
event_display step_attempt_started = ("●", "ATTEMPT STARTED")
event_display step_retry_scheduled = ("↻", "RETRY SCHEDULED")
event_display step_completed = ("✓", "STEP COMPLETED")
event_display step_failed = ("✕", "STEP FAILED")
event_display workflow_run_completed = ("◆", "RUN COMPLETED")
event_display workflow_run_failed = ("✕", "RUN FAILED")

abbrev pub thousandths : ℕ → String
thousandths n = decimal (n / 100) & decimal (n / 10 % 10) & decimal (n % 10)

-- `f"{milliseconds / 1000:.3f}s"` has the milliseconds as its three places
unfoldable pub format_duration : ℤ → String
format_duration (negsuc n) = signed_decimal (negsuc n) & "ms"
format_duration (pos n) =
    if ltb n 1000 then decimal n & "ms" else decimal (n / 1000) & "." & thousandths (n % 1000) & "s"

-- `detail.split("; key=", maxsplit=1)`
abbrev pub split_key : String → String × String
split_key detail =
    let at = find detail "; key=" in (slice detail 0 at, slice detail (at + 6) (len detail))

abbrev pub add_detail : List String → String → List String
add_detail [] detail = detail ∷ []
add_detail (first ∷ rest) detail = (first & " · " & detail) ∷ rest

abbrev pub with_detail : List String → Option String → List String
with_detail values none = values
with_detail values (some detail) =
    if str_eq detail ""
    then values
    else if leb (find detail "; key=") (len detail)
    then (let (message, key) = split_key detail in values ++ message ∷ ("key  " & key) ∷ [])
    else add_detail values detail

unfoldable pub timeline_details : Option String → Option ℕ → List String
timeline_details detail none = with_detail [] detail
timeline_details detail (some wait_ms) =
    with_detail (("wait " & format_duration (pos wait_ms)) ∷ []) detail

abbrev pub optional : Option ℕ → String
optional none = "None"
optional (some n) = decimal n

abbrev pub owner_of : TimelineEntry → String
owner_of entry = elim entry.worker_id [
  | none ↦ "—"
  | some worker_id ↦ worker_id & " · f" & optional entry.fence_token
]

abbrev pub attempt_of : Option ℕ → String
attempt_of none = "—"
attempt_of (some attempt) = "#" & decimal attempt

-- `entry.step_id or 'run'`
abbrev pub step_or_run : Option String → String
step_or_run none = "run"
step_or_run (some step_id) = if str_eq step_id "" then "run" else step_id

abbrev pub entry_line : TimelineEntry → String
entry_line entry =
    let (symbol, event_label) = event_display entry.event_type in
    "+"
    & left 9 (format_duration entry.elapsed_ms)
    & " "
    & right 2 (decimal entry.sequence)
    & "  "
    & symbol
    & " "
    & left 19 event_label
    & " "
    & left 19 (step_or_run entry.step_id)
    & " "
    & left 5 (attempt_of entry.attempt)
    & " "
    & owner_of entry

-- `status.value.upper()`
abbrev pub status_upper : WorkflowRunStatus → String
status_upper WorkflowRunStatus.running = "RUNNING"
status_upper WorkflowRunStatus.completed = "COMPLETED"
status_upper WorkflowRunStatus.failed = "FAILED"

abbrev pub status_symbol : WorkflowRunStatus → String
status_symbol WorkflowRunStatus.completed = "✓"
status_symbol _ = "●"

abbrev pub summary_line : TimelineSummary → String
summary_line summary =
    "STATUS   "
    & status_symbol summary.status
    & " "
    & left 9 (status_upper summary.status)
    & " DURATION  "
    & left 8 (format_duration summary.duration_ms)
    & " ATTEMPTS  "
    & left 3 (decimal summary.attempts)
    & "  RETRIES  "
    & left 3 (decimal summary.retries)
    & "  PLANNED WAIT  "
    & format_duration (pos summary.planned_wait_ms)

abbrev pub head_line : String
head_line = "TIME       #   EVENT                 STEP                TRY   WORKER · FENCE"

-- `width = max(72, width if width is not None else terminal_width - 1)`
abbrev pub width_of : Option ℕ → ℕ → ℕ
width_of none terminal_width = let w = terminal_width - 1 in if ltb w 72 then 72 else w
width_of (some width) terminal_width = if ltb width 72 then 72 else width

module _ (wrap : String → ℕ → List String) (width : ℕ) where
  -- `_append_box_line`: the lines that it appends
  unfoldable pub content_lines : String → List String
  content_lines content =
      if leb (count content) (width - 4)
      then box_line width content ∷ []
      else box_lines width (or_blank (wrap content (width - 4)))

  -- `for index, detail in enumerate(...)`
  abbrev pub detail_lines : String → List String → List String
  detail_lines branch [] = []
  detail_lines branch (detail ∷ details) =
      content_lines ("             " & branch & " " & detail) ++ detail_lines " " details

  unfoldable pub entries_lines : List TimelineEntry → List String
  entries_lines [] = []
  entries_lines (entry ∷ entries) =
      content_lines (entry_line entry)
      ++ (detail_lines "↳" (timeline_details entry.detail entry.wait_ms) ++ entries_lines entries)

  -- the `lines` of `format_timeline`
  unfoldable pub timeline_lines : WorkflowRunTimeline → List String
  timeline_lines timeline =
      box_title "WORKFLOW RUN" width
      ∷ (content_lines ("ID       " & timeline.run_id)
          ++ (content_lines (summary_line timeline.summary)
              ++ (box_separator width
                  ∷ (content_lines head_line
                      ++ (box_separator width
                          ∷ (entries_lines timeline.entries ++ box_end width ∷ []))))))

-- `"\n".join(lines)`
unfoldable pub join_lines : List String → String
join_lines [] = ""
join_lines (line ∷ []) = line
join_lines (line ∷ next ∷ lines) = line & "\n" & join_lines (next ∷ lines)

unfoldable pub format_timeline :
    (String → ℕ → List String) → ℕ → WorkflowRunTimeline → Option ℕ → String
format_timeline wrap terminal_width timeline width =
    join_lines (timeline_lines wrap (width_of width terminal_width) timeline)
