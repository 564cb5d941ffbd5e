-- ===== src/PollServer/Forgotten.antt =====
-- What becomes of the clients of Linux_Net/03.使用poll函数提高服务器处理能力/server.cpp.
use learning_cpp.Prelude.{ℕ, ◌≡◌, Option, none, some, ◌⊎◌, List, All}
use learning_cpp.PollServer.{Call, Outcome}

-- A call on the standard input, or a write to the standard output.
abbrev pub IsStandard : Call → Type 0
IsStandard (Call.read_from fd) = fd ≡ 0
IsStandard (Call.closed fd) = fd ≡ 0
IsStandard (Call.write_to fd bytes) = (fd ≡ 0) ⊎ (fd ≡ 1)

-- No descriptor but 0.
abbrev IsZero : Option ℕ → Type 0
IsZero none = Unit
IsZero (some fd) = fd ≡ 0

abbrev AllZero : List (Option ℕ) → Type 0
AllZero = All IsZero

abbrev Harmless : Outcome → Type 0
Harmless Outcome.exits = Unit
Harmless (Outcome.goes c calls) = AllZero c.fds × All IsStandard calls
