-- ===== src/Boot/Tasks.antt =====
-- src/main.cpp: how `setup` creates each task, and the memory that it hands over for them.
use boredom_os.Prelude.{ℕ, ◌≤◌, Option, none, some, String, arith}
use boredom_os.Boot.{Task, uart_read, usb_read, uart_write, usb_write, mavlink, logger, sd_write}

-- include/Priority.h.
abbrev pub priority_lowest : ℕ
priority_lowest = 0

abbrev pub priority_low : ℕ
priority_low = 1

abbrev pub priority_high : ℕ
priority_high = 2

abbrev pub priority_highest : ℕ
priority_highest = 3

-- The functions that the tasks run.
pub data Body : Type 0 where
  task_link_read task_link_write task_mavlink task_logger task_sd_write : Body

-- The arguments of `xTaskCreateStatic`. `port`: the index in linkPorts of the argument, if it has
-- one.
pub record Creation : Type 0 where
  pub body : Body
  pub name : String
  pub stack_depth : ℕ
  pub port : Option ℕ
  pub priority : ℕ

abbrev pub created_as : Task → Creation
created_as uart_read = record {
  body = task_link_read;
  name = "UartRead";
  stack_depth = 96;
  port = some 0;
  priority = priority_highest;
}
created_as usb_read = record {
  body = task_link_read;
  name = "UsbRead";
  stack_depth = 128;
  port = some 1;
  priority = priority_high;
}
created_as uart_write = record {
  body = task_link_write;
  name = "UartWrite";
  stack_depth = 384;
  port = some 0;
  priority = priority_high;
}
created_as usb_write = record {
  body = task_link_write;
  name = "UsbWrite";
  stack_depth = 384;
  port = some 1;
  priority = priority_high;
}
created_as mavlink = record {
  body = task_mavlink;
  name = "Mavlink";
  stack_depth = 384;
  port = none;
  priority = priority_high;
}
created_as logger = record {
  body = task_logger;
  name = "Logger";
  stack_depth = 160;
  port = none;
  priority = priority_low;
}
created_as sd_write = record {
  body = task_sd_write;
  name = "SdWrite";
  stack_depth = 320;
  port = none;
  priority = priority_lowest;
}

-- The words of the stack array that each is given.
abbrev pub stack_words : Task → ℕ
stack_words uart_read = 96
stack_words usb_read = 128
stack_words uart_write = 384
stack_words usb_write = 384
stack_words mavlink = 384
stack_words logger = 160
stack_words sd_write = 320

-- No task is told that its stack is deeper than the array that it is given.
pub stack_fits : (t : Task) → (created_as t).stack_depth ≤ stack_words t
stack_fits uart_read = omega arith
stack_fits usb_read = omega arith
stack_fits uart_write = omega arith
stack_fits usb_write = omega arith
stack_fits mavlink = omega arith
stack_fits logger = omega arith
stack_fits sd_write = omega arith
