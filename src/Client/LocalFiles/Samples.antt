-- ===== src/Client/LocalFiles/Samples.antt =====
-- A file system that has no files and makes each that it is asked to make.
use cool_down.Prelude.{true, false}
use cool_down.Outcome.{done}
use cool_down.Client.LocalFiles.{FileSystem}

abbrev pub file_system : FileSystem
file_system = record {
  Disk = Unit {0};
  create_directories = λ path disk. done disk;
  exists = λ path disk. done false;
  create_file = λ path disk. done (disk, true);
  set_size = λ path size disk. done disk;
}
