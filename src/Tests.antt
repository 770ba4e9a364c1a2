-- ===== src/Tests.antt =====
-- The theorems applied to concrete inputs, a module for each part of the program.
mod Data
mod FileSystem
mod Consoles
mod Devices
mod Processes
mod Numbers
mod Users
mod Boots
mod Shows
