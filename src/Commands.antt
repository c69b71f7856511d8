-- ===== src/Commands.antt =====
-- uberbase/cmd/uberbase and uberbase/pkg/cli: the commands of the program, over the packages.
pub mod Machines
pub mod Deploy
pub mod Signals
pub mod Scripts
