-- ===== src/Commands/Tests.antt =====
-- driver/vgate.c: MODE SENSE for all pages into a buffer of 20 bytes.
use fdlvling.Base.{true, false, some}
use fdlvling.Commands.{Buffer, execute_mode_sense, op_mode_sense}
use fdlvling.Commands.Buffers.{ReplyInside, execute_mode_sense-inside}

abbrev buffer : Buffer
buffer = record {
  has_mdl = true;
  has_next = false;
  op = op_mode_sense;
  data_in = true;
  data_out = false;
  transfer_length = 20;
  data_buffer = 0x1010;
  mdl_start = 0x1000;
  mdl_bytes = 64;
  mdl_system = some 0x9000;
}

execute_mode_sense-inside_example : ReplyInside buffer (execute_mode_sense buffer 0x3f 192)
execute_mode_sense-inside_example = execute_mode_sense-inside buffer 0x3f 192
