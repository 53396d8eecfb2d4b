-- ===== src/Tests/Fatal.antt =====
-- The boot and the panic that it may end in, at concrete inputs.
use zkrnl.Base.{◌%◌, arith, Fault}
use zkrnl.Text.{Bytes, codes}
use zkrnl.Kernel.{kernel_main, bootloader_magic}
use zkrnl.Kernel.Run.{kernel_run}
use zkrnl.Kernel.Fatal.{Outcome, Reports}
use zkrnl.Kernel.Early.{kernel_main_early}
use zkrnl.Kernel.Mapped.{read_by}
use zkrnl.Memory.Paging.Directory.Boot.{bootstrap-translate}
use zkrnl.Tests.Machine.{kernel_stack, kernel_stack-IsReserved}
use zkrnl.Kernel.Shown.{Boots, kernel_run-Boots}
use zkrnl.Tests.Firmware.{firmware, info}
use zkrnl.Tests.Tables.{image, image-IsLinked}
use zkrnl.Tests.Reports.{screen, screen-IsOnScreen, machine}

abbrev fault_text : Fault → Bytes
fault_text e = codes "panicked at src/memory/frame.rs:117:\nattempt to add with overflow"

kernel_main_early_example :
    Outcome
      (kernel_main image firmware bootloader_magic info machine)
      (kernel_run image firmware bootloader_magic info machine.build machine.registers
        machine.display)
      (λ e d.
        Reports kernel_stack
          (read_by bootstrap-translate.0 (λ f i. 7) (λ a. a % 256))
          0xC02A_0FC0
          (fault_text e)
          d)
kernel_main_early_example =
    kernel_main_early image firmware bootloader_magic info machine kernel_stack
      bootstrap-translate.0 (λ f i. 7) (λ a. a % 256) 0xC02A_0FC0 fault_text (omega arith)
      screen-IsOnScreen image-IsLinked (omega arith) kernel_stack-IsReserved bootstrap-translate.1
      (λ a. omega arith) (omega arith) (λ e. omega arith)

kernel_run-Boots_example :
    Boots image firmware info machine.build machine.registers bootloader_magic screen
      (kernel_run image firmware bootloader_magic info machine.build machine.registers screen)
kernel_run-Boots_example =
    kernel_run-Boots image firmware info machine.build machine.registers bootloader_magic screen
      (omega arith) screen-IsOnScreen
