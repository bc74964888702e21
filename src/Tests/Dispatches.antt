-- ===== src/Tests/Dispatches.antt =====
-- Messages on a dummy that hyper-fast-path/src/fast_path.bpf.c has lent to a connection.
use hyper_fast_path.Prelude.{ℕ, true, Option, none, some, if◌then◌else◌}
use hyper_fast_path.Prelude.Bytes.{Bytes, codes, bytes_eq}
use hyper_fast_path.Kernel.Verdict.{H1Parsed}
use hyper_fast_path.Kernel.Lending.{Pool, established, monitor_sockets}
use hyper_fast_path.Kernel.Dispatch.{dispatch}
use hyper_fast_path.Tests.Sharings.{no_faults, fresh}
use hyper_fast_path.Tests.Messages.{env}

-- The key of dummy 0.
abbrev dummy_key : Bytes
dummy_key = codes "d"

abbrev dummy_idx : Bytes → Option ℕ
dummy_idx key = if bytes_eq key dummy_key then some 0 else none

abbrev lent : Pool
lent = monitor_sockets 0 80 no_faults (established 7 80) (codes "a") fresh

-- The preface of HTTP/2.
abbrev preface : H1Parsed
preface = record { len = 24; is_preface = true; content_length = none; path = none }

abbrev upgraded : Pool
upgraded = (dispatch env dummy_idx dummy_key (some preface) none (codes "PRI") lent).pool
