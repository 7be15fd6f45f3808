-- ===== src/Dlv/Spawn/Waiting.antt =====
-- What the reader makes of dlv's output, and how the wait for the address ends.
use golang_debugger_skill.Base.{
  ◌≡◌, ◌≢◌, refl, ◌∙◌, false, none, some, List, [], ◌∷◌, ◌++◌, map, append_assoc, append-nil, All,
  Text, text, strip_prefix, join, newline,
}
use golang_debugger_skill.Dlv.Proc.{Proc, append_lines, fresh}
use golang_debugger_skill.Dlv.Spawn.{
  is_gap, run_of, listening, listen_address, Reader, no_output, read_line, read_lines, Event,
  line_read, output_closed, timed_out, serving, exited, late, await,
}

run_of-word : (a : Text) → All (λ c. is_gap c ≡ false) a → run_of a ≡ a
unfolding run_of
run_of-word [] h = refl
run_of-word (c ∷ a) (h, hs) = rw (h, run_of-word a hs) refl

-- dlv's announcement gives its address, a text without blanks that is not empty.
pub listen_address-listening :
    (a : Text) → a ≢ [] → All (λ c. is_gap c ≡ false) a → listen_address (listening ++ a) ≡ some a
unfolding listen_address listening strip_prefix text
listen_address-listening [] h hs = absurd (h refl)
listen_address-listening (c ∷ a) h hs = rw (run_of-word (c ∷ a) hs) refl

-- No line of these announces an address.
abbrev pub Silent : List Text → Type 0
Silent = All (λ line. listen_address line ≡ none)

-- A reader that has no address yet.
abbrev unread : List Text → Reader
unread pre = record { addr = none; pre = pre; proc = fresh }

read_line-Silent :
    (line : Text) (pre : List Text)
    → listen_address line ≡ none
    → read_line line (unread pre) ≡ unread (pre ++ (line ∷ []))
unfolding read_line
read_line-Silent line pre h = rw h refl

await-Silent :
    (old pre : List Text) (events : List Event)
    → Silent pre
    → await (map line_read pre ++ events) (unread old) ≡ await events (unread (old ++ pre))
unfolding await
await-Silent old [] events h = rw append-nil refl
await-Silent old (line ∷ pre) events (h, hs) =
    rw (read_line-Silent line old h)
      (await-Silent (old ++ (line ∷ [])) pre events hs ∙ rw append_assoc refl)

read_line-address :
    (line a : Text) (pre : List Text)
    → listen_address line ≡ some a
    → read_line line (unread pre) ≡ record { addr = some a; pre = pre; proc = fresh }
unfolding read_line
read_line-address line a pre h = rw h refl

-- Once the address is known, every line goes to the output of the target.
read_lines-output :
    (a : Text) (pre lines : List Text) (p : Proc)
    → read_lines lines (record { addr = some a; pre = pre; proc = p })
      ≡ record { addr = some a; pre = pre; proc = append_lines lines p }
unfolding read_lines read_line append_lines
read_lines-output a pre [] p = refl
read_lines-output a pre (line ∷ lines) p = read_lines-output a pre lines _

-- After some lines that announce no address, the wait ends with the address of the next line that
-- announces one, with an error that tells those lines if the output is closed, or with the time-out;
-- in the first case every later line is passed to the target's output, and no earlier one is.
pub await-endings :
    (pre : List Text) (line a : Text) (after : List Text) (events : List Event)
    → Silent pre
    → listen_address line ≡ some a
    → (await (map line_read pre ++ (line_read line ∷ events)) no_output
        ≡ serving a (record { addr = some a; pre = pre; proc = fresh }))
      × (read_lines after (record { addr = some a; pre = pre; proc = fresh })
          ≡ record { addr = some a; pre = pre; proc = append_lines after fresh })
      × (await (map line_read pre ++ (output_closed ∷ events)) no_output
          ≡ exited (text "dlv exited before serving:\n" ++ join (newline ∷ []) pre))
      × (await (map line_read pre ++ (timed_out ∷ events)) no_output ≡ late)
unfolding await
await-endings pre line a after events h e = (
  await-Silent [] pre (line_read line ∷ events) h ∙ rw (read_line-address line a pre e) refl,
  read_lines-output a pre after fresh,
  await-Silent [] pre (output_closed ∷ events) h,
  await-Silent [] pre (timed_out ∷ events) h,
)
