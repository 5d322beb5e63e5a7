-- ===== src/Protocol/Command.antt =====
-- pyspec/_connection/command.py and flag.py: the command codes and the flag of a header.
use chess_pyspec.Base.{ℕ, ◌/◌, ◌%◌, ◌≡◌, refl, Bool, not, arith, ◌==◌, if◌then◌else◌}
use chess_pyspec.Base.Int.{ℤ, pos, negsuc, word32}
use chess_pyspec.Base.Result.{Result, ok, err, value_error}

pub data Command : Type 0 where
  close abort cmd cmd_with_return register unregister func func_with_return : Command
  chan_read chan_send hello event reply hello_reply return : Command

-- `Command.X.value`
unfoldable pub value : Command → ℕ
value close = 1
value abort = 2
value cmd = 3
value cmd_with_return = 4
value return = 5
value register = 6
value unregister = 7
value event = 8
value func = 9
value func_with_return = 10
value chan_read = 11
value chan_send = 12
value reply = 13
value hello = 14
value hello_reply = 15

of_code : ℕ → Result Command
of_code n =
    if n == 1
    then ok close
    else if n == 2
    then ok abort
    else if n == 3
    then ok cmd
    else if n == 4
    then ok cmd_with_return
    else if n == 5
    then ok return
    else if n == 6
    then ok register
    else if n == 7
    then ok unregister
    else if n == 8
    then ok event
    else if n == 9
    then ok func
    else if n == 10
    then ok func_with_return
    else if n == 11
    then ok chan_read
    else if n == 12
    then ok chan_send
    else if n == 13
    then ok reply
    else if n == 14
    then ok hello
    else if n == 15
    then ok hello_reply
    else err value_error

-- `Command(n)`
unfoldable pub of_value : ℤ → Result Command
unfolding of_code
of_value (pos n) = of_code n
of_value (negsuc n) = err value_error

pub of_value-value : (c : Command) → of_value (pos (value c)) ≡ ok c
unfolding of_value value
of_value-value close = refl
of_value-value _ = refl

-- A code is accepted only if it is the code of the command returned.
pub value-of_value : (z : ℤ) {c : Command} → of_value z ≡ ok c → z ≡ pos (value c)
unfolding of_value value
value-of_value (pos n) h = ground arith
value-of_value (negsuc n) h = cc

-- `Flag.DELETED.value`
abbrev pub deleted_flag : ℕ
deleted_flag = 0x1000

-- `(flags & Flag.DELETED.value) != 0`, on the two's complement word of a signed field
unfoldable pub has_deleted : ℤ → Bool
has_deleted flags = not (word32 flags / deleted_flag % 2 == 0)
