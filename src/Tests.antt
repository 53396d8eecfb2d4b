-- ===== src/Tests.antt =====
-- Each theorem at a concrete input, on a small bitmap, one boot memory map and one kernel image.
mod Words
mod Frames
mod Firmware
mod Tables
mod Reports
mod Machine
mod Limits
mod Fatal
mod Segments
mod Console
