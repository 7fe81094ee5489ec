-- ===== src/Command.antt =====
-- The command service and the command line that drives it (CommandService/CommandService.cpp,
-- CommandLineService/CommandLineService.cpp).
pub mod Service
pub mod Line
pub mod Laws
pub mod Tests
