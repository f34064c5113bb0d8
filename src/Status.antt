-- ===== src/Status.antt =====
-- What the functions of the library return: 0, or -1 on failure.
use mathlib.Core.Option.{Option, none, some}

pub data Status : Type 0 where
  ok : Status
  fail : Status

-- What a caller has got: the message, if the call succeeded.
abbrev pub received {ℓ} : {A : Type ℓ} → Status → A → Option A
received ok a = some a
received fail a = none
