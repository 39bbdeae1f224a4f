-- ===== src/Timeline/Width.antt =====
-- The width of the rendered lines.
use Prim.Native.String.{◌++◌ as str_append, count}
use text.Mathlib.TextLemmas.{length-append as count-append}
use crashsafe.Prelude.{
  ℕ, zero, suc, ◌-◌, ◌≤◌, String, ◌≡◌, refl, Option, none, some, List, [], ◌∷◌, arith, leb,
  Bool-cases, inl, inr, All, All-append,
}
use crashsafe.Models.Timeline.{TimelineEntry, WorkflowRunTimeline}
use crashsafe.Timeline.Rendering.{
  repeat, left, box_title, box_separator, box_end, box_line, box_lines, or_blank, content_lines,
  detail_lines, entry_line, timeline_details, entries_lines, timeline_lines, head_line,
  summary_line, width_of, format_timeline, join_lines,
}

count-repeat : (times : ℕ) (text : String) → count text ≡ 1 → count (repeat times text) ≡ times
unfolding repeat
count-repeat zero text h = refl
count-repeat (suc times) text h =
    omega (arith, count-append text (repeat times text), count-repeat times text h, h)

-- A part that fits is filled up to the width.
count-left : (width : ℕ) (text : String) → count text ≤ width → count (left width text) ≡ width
count-left width text h = omega (
  arith,
  count-append text (repeat (width - count text) " "),
  count-repeat (width - count text) " " refl,
  h,
)

module _ (width : ℕ) (wide : 72 ≤ width) where
  abbrev HasWidth : String → Type 0
  HasWidth line = count line ≡ width

  count-box_line : (part : String) → count part ≤ width - 4 → count (box_line width part) ≡ width
  unfolding box_line
  count-box_line part h = omega (
    arith,
    count-append "│ " (str_append (left (width - 4) part) " │"),
    count-append (left (width - 4) part) " │",
    count-left (width - 4) part h,
    wide,
  )

  count-box_separator : count (box_separator width) ≡ width
  unfolding box_separator
  count-box_separator = omega (
    arith,
    count-append "├" (str_append (repeat (width - 2) "─") "┤"),
    count-append (repeat (width - 2) "─") "┤",
    count-repeat (width - 2) "─" refl,
    wide,
  )

  count-box_end : count (box_end width) ≡ width
  unfolding box_end
  count-box_end = omega (
    arith,
    count-append "╰" (str_append (repeat (width - 2) "─") "╯"),
    count-append (repeat (width - 2) "─") "╯",
    count-repeat (width - 2) "─" refl,
    wide,
  )

  count-box_title : count (box_title "WORKFLOW RUN" width) ≡ width
  unfolding box_title
  count-box_title =
      let label : String = "─ WORKFLOW RUN " in
      omega (
        arith,
        count-append "╭" (str_append label (str_append (repeat (width - 15 - 2) "─") "╮")),
        count-append label (str_append (repeat (width - 15 - 2) "─") "╮"),
        count-append (repeat (width - 15 - 2) "─") "╮",
        count-repeat (width - 15 - 2) "─" refl,
        wide,
      )

  module _ (wrap : String → ℕ → List String)
      (fits : (content : String) (n : ℕ)
        → 68 ≤ n
        → All (λ line. count line ≤ n) (wrap content n)) where
    box_lines-HasWidth :
        (parts : List String)
        → All (λ part. count part ≤ width - 4) parts
        → All HasWidth (box_lines width parts)
    box_lines-HasWidth [] h = tt
    box_lines-HasWidth (part ∷ parts) h = (count-box_line part h.0, box_lines-HasWidth parts h.1)

    or_blank-fits :
        (parts : List String)
        → All (λ part. count part ≤ width - 4) parts
        → All (λ part. count part ≤ width - 4) (or_blank parts)
    or_blank-fits [] h = (omega arith, tt)
    or_blank-fits (part ∷ parts) h = h

    content_lines-HasWidth : (content : String) → All HasWidth (content_lines wrap width content)
    unfolding content_lines
    content_lines-HasWidth content = elim (Bool-cases (leb (count content) (width - 4))) [
      | inl e ↦ rw e (count-box_line content (ground arith), tt)
      | inr e ↦ rw e (
          box_lines-HasWidth (or_blank (wrap content (width - 4))) (
            or_blank-fits (wrap content (width - 4))
              (fits content (width - 4) (omega (arith, wide)))))
    ]

    detail_lines-HasWidth :
        (branch : String) (details : List String)
        → All HasWidth (detail_lines wrap width branch details)
    detail_lines-HasWidth branch [] = tt
    detail_lines-HasWidth branch (detail ∷ details) =
        All-append HasWidth _ _ (content_lines-HasWidth _) (detail_lines-HasWidth " " details)

    entries_lines-HasWidth :
        (entries : List TimelineEntry) → All HasWidth (entries_lines wrap width entries)
    unfolding entries_lines
    entries_lines-HasWidth [] = tt
    entries_lines-HasWidth (entry ∷ entries) =
        All-append HasWidth _ _ (content_lines-HasWidth (entry_line entry)) (
          All-append HasWidth _ _
            (detail_lines-HasWidth "↳" (timeline_details entry.detail entry.wait_ms))
            (entries_lines-HasWidth entries))

    timeline_lines-HasWidth :
        (timeline : WorkflowRunTimeline) → All HasWidth (timeline_lines wrap width timeline)
    unfolding timeline_lines
    timeline_lines-HasWidth timeline = (
      count-box_title,
      All-append HasWidth _ _ (content_lines-HasWidth _) (
          All-append HasWidth _ _ (content_lines-HasWidth (summary_line timeline.summary)) (
            count-box_separator,
            All-append HasWidth _ _ (content_lines-HasWidth head_line) (
              count-box_separator,
              All-append HasWidth _ _ (entries_lines-HasWidth timeline.entries) (count-box_end, tt),
            ),
          )),
    )

width_of-wide : (width : Option ℕ) (terminal_width : ℕ) → 72 ≤ width_of width terminal_width
width_of-wide none terminal_width = ground arith
width_of-wide (some width) terminal_width = ground arith

-- Where `textwrap.wrap` returns lines within the width that it is given, for widths of 68 and above,
-- a rendered timeline is a list of lines joined by newlines, and each line of that list has exactly
-- the chosen number of characters, for every timeline, width and terminal. A line may itself hold a
-- newline of a text of the timeline, which counts as one of its characters.
pub format_timeline-width :
    (wrap : String → ℕ → List String)
    → ((content : String) (n : ℕ) → 68 ≤ n → All (λ line. count line ≤ n) (wrap content n))
    → (timeline : WorkflowRunTimeline) (width : Option ℕ) (terminal_width : ℕ)
    → (lines : List String) × (format_timeline wrap terminal_width timeline width
        ≡ join_lines lines)
      × All (λ line. count line ≡ width_of width terminal_width) lines
unfolding format_timeline
format_timeline-width wrap fits timeline width terminal_width = (
  timeline_lines wrap (width_of width terminal_width) timeline,
  refl,
  timeline_lines-HasWidth (width_of width terminal_width) (width_of-wide width terminal_width) wrap
      fits timeline,
)
