-- ===== src/Examples/Clients.antt =====
-- The theorems on the control socket, at concrete inputs.
use teeproxyd.Base.{
  ◌↔◌, List, ℕ, All, arith, ◌∷◌, suc, ◌≤◌, ◌<◌, ◌≡◌, refl, true, false, none, some, [], ◌++◌, codes,
  length, is_utf8, is_utf8,
}
use teeproxyd.Config.{default}
use teeproxyd.Startup.{complete}
use teeproxyd.Vm
use teeproxyd.Ca
use teeproxyd.Ipc.{serve, handle_client}
use teeproxyd.Ipc.Reader.{Stream, line, read_line, take_line}
use teeproxyd.Ipc.Status.{read_vm, read_ca, status_is_readable, view, status_shows_view}
use teeproxyd.Ipc.Handlers.{Managers, handle_status, handle_tail_log}
use teeproxyd.Ipc.Framing.{read_line_lem, handle_client_ends}
use teeproxyd.Ipc.Answers.{tail_is_bounded, FeedsWithin}
use teeproxyd.LogCollector.Tail.{feeds}
use teeproxyd.Ipc.Requests.{IsRequest}
use teeproxyd.Ipc.Replies.{Replied, sends, reply_per_request}
use teeproxyd.Examples.World.{calm}

-- Two lines, an empty one, and a rest without a line feed.
abbrev three_lines : Stream
three_lines = record { bytes = codes "{}\n\r\n{}\n{"; fails = false }

abbrev managers : Managers
managers = record {
  vm = record { state = Vm.idle; child_pid = none; crash_count = 0; ready_since = none };
  ca = record { state = Ca.idle; child_pid = none; crash_count = 0; ready_since = none };
}

first_line : (read_line three_lines).0 ≡ line (codes "{}\n")
unfolding read_line take_line is_utf8
first_line = refl

read_line_lem_example :
    let rest = (read_line three_lines).1 in
    (three_lines.bytes ≡ codes "{}\n" ++ rest.bytes)
    × (length (codes "{}\n") ≤ 65536)
    × (is_utf8 (codes "{}\n") ≡ true)
    × (length rest.bytes < length three_lines.bytes)
    × (rest.fails ≡ false)
read_line_lem_example = read_line_lem three_lines (codes "{}\n") first_line

handle_client_ends_example :
    (serve calm default complete 0 (suc (length three_lines.bytes)) three_lines managers []).0.1
    ≡ true
handle_client_ends_example = handle_client_ends calm default complete 0 three_lines managers []

tail_is_bounded_example :
    FeedsWithin 9999
      (handle_tail_log calm default
        (record { cmd = some "tail_log"; source = some "ca"; lines = some 1000000 })
        []).0
tail_is_bounded_example =
    tail_is_bounded calm default
      (record { cmd = some "tail_log"; source = some "ca"; lines = some 1000000 }) []

-- Two requests.
abbrev two : List (List ℕ)
two = codes "{\"cmd\":\"ping\"}" ∷ codes "status" ∷ []

two-AreRequests : All IsRequest two
two-AreRequests = (
  record {
    clean = omega arith;
    filled = omega arith;
    short = omega arith;
    utf8 = unfold is_utf8 in refl;
  },
  (
    record {
      clean = omega arith;
      filled = omega arith;
      short = omega arith;
      utf8 = unfold is_utf8 in refl;
    },
    tt,
  ),
)

reply_per_request_example :
    Replied 2 [] (handle_client calm default complete 0 (sends two true) managers []).1
reply_per_request_example =
    reply_per_request calm default complete 0 two true managers []
      (λ o b e. unfold feeds in ground arith) (λ b u. refl) two-AreRequests

-- The same states, behind other children and crashes.
abbrev troubled : Managers
troubled = record managers { vm = record managers.vm { crash_count = 4 } }

status_shows_view_example :
    let answer = λ (n : Managers). (handle_status calm default complete 0 n []).0 in
    (answer managers ≡ answer troubled) ↔ (view managers ≡ view troubled)
status_shows_view_example = status_shows_view calm default complete 0 managers troubled []

status_is_readable_example :
    let answer = (handle_status calm default complete 0 troubled []).0 in
    (read_vm answer ≡ some troubled.vm.state) × (read_ca answer ≡ some troubled.ca.state)
status_is_readable_example = status_is_readable calm default complete 0 troubled []
