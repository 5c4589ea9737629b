-- ===== src/Pipe/Tests.antt =====
-- Runs of kernel/src/fs/pipe.rs, and the theorems at concrete inputs.
use kontsnor_os.Prelude.{
  ℕ, ◌≡◌, refl, true, false, List, [], ◌∷◌, arith, length, Bool, replicate, length-replicate,
}
use kontsnor_os.Pipe.{PipeBuffer, PipeEnd, WakeUp, pipe_buf_size, new_buffer, read}
use kontsnor_os.Pipe.Buffer.{IsValid, new_buffer-IsValid}
use kontsnor_os.Pipe.Reader.{EndIsReal, read_eof}
use kontsnor_os.Pipe.Writer.{IsOpen}

-- The empty end of a fresh pipe, kept shut so that its 65536 slots are not spelled out.
fresh : PipeEnd
fresh = record {
  state = record { buffer = new_buffer; readers = 1; writers = 1; sequence = 0 };
  non_blocking = false;
}

fresh-IsOpen : IsOpen fresh
unfolding fresh
fresh-IsOpen = record { valid = new_buffer-IsValid.0; reader = omega arith }

-- Any slots, kept shut.
slots : List ℕ
slots = replicate pipe_buf_size 7

length-slots : length slots ≡ pipe_buf_size
unfolding slots
length-slots = length-replicate {A = ℕ} pipe_buf_size 7

-- Three bytes, the last of them round the end of the storage.
abbrev wrapped : PipeBuffer
wrapped = record { bytes = slots; read_pos = 65534; write_pos = 1; len = 3 }

-- Room for two more bytes.
abbrev nearly_full : PipeBuffer
nearly_full = record { bytes = slots; read_pos = 1; write_pos = 65535; len = 65534 }

abbrev holding : PipeBuffer → Bool → PipeEnd
holding b nb = record {
  state = record { buffer = b; readers = 1; writers = 1; sequence = 0 };
  non_blocking = nb;
}

wrapped-IsValid : IsValid wrapped
wrapped-IsValid = record {
  slots = length-slots;
  read_in = omega arith;
  write_at = refl;
  bounded = omega arith;
}

abbrev quiet : Bool → WakeUp
quiet s = record { interfere = λ p. p; signalled = s }

-- A reader empties the pipe and stays.
abbrev emptying : PipeEnd → PipeEnd
emptying p = record p { state = record p.state { buffer = new_buffer } }

read_eof_example : EndIsReal (read (quiet true ∷ []) (holding wrapped false) (0 ∷ []))
read_eof_example = read_eof (quiet true ∷ []) (holding wrapped false) (0 ∷ []) (omega arith)

abbrev draining : WakeUp
draining = record { interfere = emptying; signalled = false }
