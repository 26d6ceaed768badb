-- ===== src/Vscode.antt =====
-- internal/vscode: launching VS Code Desktop, and what it is given.
pub mod Launcher
pub mod UserData
pub mod Setup
pub mod Launch
